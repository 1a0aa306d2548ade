-- ===== src/Base58/Decode/Spells.antt =====
-- What `base58_decode` gives for a text of base 58 characters.
use Prim.{absurd}
use hathor_ledger_app.Prelude.{
  ℕ, zero, suc, ◌+◌, ◌*◌, ◌/◌, ◌%◌, ◌^◌, ◌≤◌, ◌<◌, ◌≡◌, refl, subst, ap, ap₂, ◌∙◌, false, ◌||◌,
  List, [], ◌∷◌, ◌++◌, some, All, All-drop, drop, length, length-drop, replicate, length-append,
  length-replicate, ltb, arith,
}
use hathor_ledger_app.Bytes.{IsByte, Bytes}
use hathor_ledger_app.Base58.{zero_prefix}
use hathor_ledger_app.Base58.Value.{spelled, spelled-drop_zeros, zero_prefix-drop, zero_prefix_most}
use hathor_ledger_app.Base58.Decode.{
  divide, skip_zero, decode_loop, decode_digits, write_decoded, base58_decode, written,
}

abbrev pub IsDigit58 : ℕ → Type 0
IsDigit58 d = d < 58

-- Division of a number by 256, in base 58.
divide-spells :
    (a r : ℕ) (ds : List ℕ)
    → r < 256
    → All IsDigit58 ds
    → (spelled 58 (a * 256 + r) ds ≡ spelled 58 a (divide r ds).0 * 256 + (divide r ds).1)
      × ((divide r ds).1 < 256)
      × (length (divide r ds).0 ≡ length ds)
      × All IsDigit58 (divide r ds).0
unfolding divide
divide-spells a r [] h d = (refl, h, refl, tt)
divide-spells a r (x ∷ ds) h d =
    let small : (r * 58 + x) % 2 ^ 16 ≡ r * 58 + x = omega (arith, d.0) in
    let q = (r * 58 + x) / 256 in
    let byte : q % 256 ≡ q = omega (arith, d.0) in
    let (value, below, size, digits) =
      divide-spells (a * 58 + q) ((r * 58 + x) % 256) ds (omega arith) d.1 in
    let start : (a * 256 + r) * 58 + x ≡ (a * 58 + q) * 256 + (r * 58 + x) % 256 = omega arith in
    rw (small, byte)
      (ap (λ n. spelled 58 n ds) start ∙ value, below, ap suc size, (omega (arith, d.0), digits))

-- The quotient has a digit less.
divide-first : (d : ℕ) (ds : List ℕ) → d < 58 → (divide 0 (d ∷ ds)).0 ≡ 0 ∷ (divide (d % 256) ds).0
unfolding divide
divide-first d ds h =
    let quotient : (0 * 58 + d) % 2 ^ 16 / 256 % 256 ≡ 0 = omega arith in
    let remainder : (0 * 58 + d) % 2 ^ 16 % 256 ≡ d % 256 = omega arith in
    ap₂ (λ q r. q ∷ (divide r ds).0) quotient remainder

decode_loop-spells :
    (rounds : ℕ) (digits bytes : List ℕ)
    → length digits ≤ rounds
    → All IsDigit58 digits
    → Bytes bytes
    → (out : List ℕ) × (decode_loop rounds digits bytes ≡ some out)
      × (spelled 256 0 out ≡ spelled 256 (spelled 58 0 digits) bytes)
      × (length out ≡ length digits + length bytes)
      × Bytes out
unfolding decode_loop
decode_loop-spells rounds [] bytes h d b = (bytes, refl, refl, omega arith, b)
decode_loop-spells zero (x ∷ ds) bytes h d b = absurd (omega arith)
decode_loop-spells (suc rounds) (x ∷ ds) bytes h d b =
    let first = divide-first x ds d.0 in
    let tail = (divide (x % 256) ds).0 in
    let r = (divide 0 (x ∷ ds)).1 in
    let (value, below, size, digits) = divide-spells 0 0 (x ∷ ds) (omega arith) d in
    let shorter : length tail ≡ length ds = omega (arith, ap length first, size) in
    let (out, ended, spells, count, out_bytes) =
      decode_loop-spells rounds tail (r % 256 ∷ bytes) (omega arith)
        (subst (All IsDigit58) first digits).1 (omega arith, b) in
    let number : spelled 58 0 tail * 256 + r % 256 ≡ spelled 58 0 (x ∷ ds) =
      omega (arith, ap (spelled 58 0) first, value, below) in
    (
      out,
      ap (λ l. decode_loop rounds (skip_zero l) (r % 256 ∷ bytes)) first ∙ ended,
      spells ∙ ap (λ n. spelled 256 n bytes) number,
      omega arith,
      out_bytes,
    )

-- Where the characters have been looked up: for every leading digit 0 a zero, then the bytes, of
-- which the first is not 0, that spell the number that the digits spell in base 58.
pub base58_decode-spells :
    (input digits : List ℕ) (out_len : ℕ)
    → 2 ≤ length input
    → length input ≤ 164
    → decode_digits input ≡ some digits
    → All IsDigit58 digits
    → length digits ≡ length input
    → length input ≤ out_len
    → (bytes : List ℕ) × (base58_decode input out_len
        ≡ written (replicate (zero_prefix digits) 0 ++ bytes))
      × Bytes bytes
      × (zero_prefix bytes ≡ 0)
      × (spelled 256 0 bytes ≡ spelled 58 0 digits)
unfolding base58_decode write_decoded
base58_decode-spells input digits out_len least most looked d same room =
    let z = zero_prefix digits in
    let zm = zero_prefix_most digits in
    let rest = drop z digits in
    let n = length-drop z digits in
    let (out, ended, spells, count, bytes) =
      decode_loop-spells (length input) rest [] (omega arith) (All-drop IsDigit58 z digits d) tt in
    let shown = drop (zero_prefix out) out in
    let m = length-drop (zero_prefix out) out in
    let size : length (replicate z 0 ++ shown) ≡ z + length shown =
      length-append (replicate z 0) shown ∙ omega (arith, length-replicate {A = ℕ} z 0) in
    let accepted : (ltb 164 (length input) || ltb (length input) 2) ≡ false = ground arith in
    let fits : ltb out_len (length (replicate z 0 ++ shown)) ≡ false = ground arith in
    (
      shown,
      rw (accepted, looked, ended, fits) refl,
      All-drop IsByte (zero_prefix out) out bytes,
      zero_prefix-drop out,
      spelled-drop_zeros 256 out ∙ spells ∙ spelled-drop_zeros 58 digits,
    )

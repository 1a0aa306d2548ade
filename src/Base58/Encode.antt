-- ===== src/Base58/Encode.antt =====
-- `base58_encode` of src/common/base58.c: the text spells the number that the bytes spell.
use native.Mathlib.Nat.{pow-suc}
use hathor_ledger_app.Prelude.{
  ℕ, zero, suc, ◌+◌, ◌-◌, ◌*◌, ◌/◌, ◌^◌, ◌≤◌, ◌<◌, ◌≡◌, refl, sym, ap, ◌∙◌, false, List, [], ◌∷◌,
  ◌++◌, some, All, All-drop, All-drop, map, drop, length-drop, length-replicate, replicate, length,
  ltb, arith,
}
use hathor_ledger_app.Bytes.{IsByte, Bytes, at}
use hathor_ledger_app.Base58.{carry_loop, encode_loop, zero_prefix, base58_encode, base58_alphabet}
use hathor_ledger_app.Base58.Value.{
  spelled, prefix, prefix-all, prefix-zeros, spelled-drop_zeros, zero_prefix-drop, zero_prefix_most,
  digits_for, digits_for_most,
}
use hathor_ledger_app.Base58.Carry.{Zeros, Digits, carry_loop-Carried}

encode_loop-spells :
    (k : ℕ) (xs : List ℕ) (stop : ℕ) (b : List ℕ)
    → Bytes xs
    → k + length xs ≤ 120
    → digits_for (k + length xs) ≤ length b
    → length b < 2 ^ 32
    → length b ≤ stop + digits_for k
    → stop < length b
    → prefix (length b) b < 256 ^ k
    → Zeros stop b
    → Digits b
    → (length (encode_loop xs stop b) ≡ length b)
      × (prefix (length b) (encode_loop xs stop b) ≡ spelled 256 (prefix (length b) b) xs)
      × Digits (encode_loop xs stop b)
unfolding encode_loop
encode_loop-spells k [] stop b bytes most room hb hs lt small z d = (refl, refl, d)
encode_loop-spells k (x ∷ xs) stop b bytes most room hb hs lt small z d =
    let size = length b in
    let m = digits_for (suc k) in
    let fits = digits_for_most (suc k) (omega arith) in
    let (b', r) = carry_loop size x stop b in
    let (after, before, length', value, kept, zeros, digits) =
      carry_loop-Carried (size - m) m size x stop b (omega arith) (omega arith) (omega arith)
        (omega arith) (omega arith) (omega (arith, pow-suc 256 k, bytes.0)) (λ i l n. z i l) d in
    let same : prefix (length b') b' ≡ prefix size b * 256 + x =
      ap (λ n. prefix n b') length' ∙ value in
    let (length'', spells, digits') =
      encode_loop-spells (suc k) xs r b' bytes.1 (omega arith) (omega arith) (omega arith)
        (omega arith) (omega arith) (omega (arith, same, pow-suc 256 k, bytes.0)) zeros digits in
    (
      length'' ∙ length',
      ap (λ n. prefix n (encode_loop xs r b')) (sym length')
          ∙ spells
          ∙ ap (λ v. spelled 256 v xs) same,
      digits',
    )

zeros_at : (n i : ℕ) → at (replicate n 0) i ≡ 0
zeros_at zero i = refl
zeros_at (suc n) zero = refl
zeros_at (suc n) (suc i) = zeros_at n i

All-Digits : (b : List ℕ) → Digits b → All (λ d. d < 58) b
All-Digits [] d = tt
All-Digits (x ∷ b) d = (d 0, All-Digits b (λ i. d (suc i)))

-- Up to 120 bytes, with room for 138 characters for 100 bytes and one more, are written in no more
-- than that: a '1' for every leading zero, and digits below 58, of which the first is not 0, that
-- spell the number that the bytes spell in base 256.
pub base58_encode-spells :
    (input : List ℕ) (out_len : ℕ)
    → Bytes input
    → length input ≤ 120
    → digits_for (length input) ≤ out_len
    → (digits : List ℕ) × (base58_encode input out_len
        ≡ some (replicate (zero_prefix input) b'1' ++ map (at base58_alphabet) digits))
      × All (λ d. d < 58) digits
      × (zero_prefix digits ≡ 0)
      × (spelled 58 0 digits ≡ spelled 256 0 input)
      × (zero_prefix input + length digits ≤ digits_for (length input))
unfolding base58_encode
base58_encode-spells input out_len bytes most room =
    let z = zero_prefix input in
    let rest = drop z input in
    let n = length-drop z input in
    let zm = zero_prefix_most input in
    let size = (length input - z) * 138 / 100 + 1 in
    let start : List ℕ = replicate size 0 in
    let size_of : length start ≡ size = length-replicate size 0 in
    let nothing : prefix (length start) start ≡ 0 =
      prefix-zeros (length start) start (λ i l. zeros_at size i) in
    let (length', spells, below) =
      encode_loop-spells 0 rest (size - 1) start (All-drop IsByte z input bytes) (omega arith)
        (omega arith) (omega arith) (omega arith) (omega arith) (omega arith)
        (λ i l. zeros_at size i) (λ i. omega (arith, zeros_at size i)) in
    let b = encode_loop rest (size - 1) start in
    let digits = drop (zero_prefix b) b in
    let shorter = length-drop (zero_prefix b) b in
    let number : spelled 58 0 b ≡ spelled 256 0 rest =
      sym (prefix-all b)
      ∙ ap (λ k. prefix k b) length'
      ∙ spells
      ∙ ap (λ v. spelled 256 v rest) nothing in
    let short : ltb 120 (length input) ≡ false = ground arith in
    let room' : ltb out_len (z + length digits) ≡ false = ground arith in
    (
      digits,
      rw (short, room') refl,
      All-drop (λ d. d < 58) (zero_prefix b) b (All-Digits b below),
      zero_prefix-drop b,
      spelled-drop_zeros 58 b ∙ number ∙ spelled-drop_zeros 256 input,
      omega arith,
    )

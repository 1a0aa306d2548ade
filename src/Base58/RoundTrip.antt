-- ===== src/Base58/RoundTrip.antt =====
-- `base58_decode` gives back the bytes that `base58_encode` wrote.
use Prim.{absurd}
use hathor_ledger_app.Prelude.{
  ℕ, zero, suc, ◌+◌, ◌-◌, ◌*◌, ◌≤◌, ◌<◌, ◌≡◌, inl, inr, refl, sym, subst, ap, ap₂, ◌∙◌, Bool, true,
  false, ◌&&◌, ◌||◌, List, [], ◌∷◌, ◌++◌, none, some, All, All-drop, All-append, map, drop, length,
  replicate, length-append, length-replicate, ltb, ltb→lt, leb, ◌==◌, ==_iff, arith, Bool-cases,
  same_or_not,
}
use hathor_ledger_app.Bytes.{IsByte, Bytes, at}
use hathor_ledger_app.Base58.{zero_prefix, base58_encode, base58_alphabet}
use hathor_ledger_app.Base58.Value.{both, spelled, spelled-drop_zeros, zero_prefix-drop, digits_for}
use hathor_ledger_app.Base58.Encode.{base58_encode-spells}
use hathor_ledger_app.Base58.Decode.{base58_table, decode_digits, base58_decode, written}
use hathor_ledger_app.Base58.Decode.Spells.{IsDigit58, base58_decode-spells}

-- Lists of one length that spell the same number in base 256 are the same.
same_digits :
    (a b : ℕ) (xs ys : List ℕ)
    → Bytes xs
    → Bytes ys
    → length xs ≡ length ys
    → spelled 256 a xs ≡ spelled 256 b ys
    → (a ≡ b) × (xs ≡ ys)
same_digits a b [] [] hx hy n e = (e, refl)
same_digits a b [] (y ∷ ys) hx hy n e = absurd (omega arith)
same_digits a b (x ∷ xs) [] hx hy n e = absurd (omega arith)
same_digits a b (x ∷ xs) (y ∷ ys) hx hy n e =
    let (start, rest) = same_digits (a * 256 + x) (b * 256 + y) xs ys hx.1 hy.1 (omega arith) e in
    (omega (arith, hx.0, hy.0), ap₂ (λ d ds. d ∷ ds) (omega (arith, hx.0, hy.0)) rest)

spelled-padded :
    (base k : ℕ) (xs : List ℕ) → spelled base 0 (replicate k 0 ++ xs) ≡ spelled base 0 xs
spelled-padded base zero xs = refl
spelled-padded base (suc k) xs =
    let e : 0 * base + 0 ≡ 0 = omega arith in
    ap (λ n. spelled base n (replicate k 0 ++ xs)) e ∙ spelled-padded base k xs

All-zeros : (k m : ℕ) → 0 < m → All (λ d. d < m) (replicate k 0)
All-zeros zero m h = tt
All-zeros (suc k) m h = (h, All-zeros k m h)

zero_prefix-padded : (k : ℕ) (xs : List ℕ) → zero_prefix (replicate k 0 ++ xs) ≡ k + zero_prefix xs
unfolding zero_prefix
zero_prefix-padded zero xs = omega arith
zero_prefix-padded (suc k) xs = omega (arith, zero_prefix-padded k xs)

-- Without leading zeros the lengths need not be compared.
shorter_same :
    (k : ℕ) (xs ys : List ℕ)
    → Bytes xs
    → Bytes ys
    → k + length xs ≡ length ys
    → zero_prefix ys ≡ 0
    → spelled 256 0 xs ≡ spelled 256 0 ys
    → xs ≡ ys
shorter_same k xs ys hx hy n z e =
    let size : length (replicate k 0 ++ xs) ≡ length ys =
      length-append (replicate k 0) xs ∙ omega (arith, length-replicate {A = ℕ} k 0) in
    let same =
      (same_digits 0 0 (replicate k 0 ++ xs) ys
        (All-append IsByte (replicate k 0) xs (All-zeros k 256 (omega arith)) hx) hy size
        (spelled-padded 256 k xs ∙ e)).1 in
    let none_more : k ≡ 0 = omega (arith, zero_prefix-padded k xs, ap zero_prefix same) in
    ap (λ m. replicate m 0 ++ xs) (sym none_more) ∙ same

same_bytes :
    (xs ys : List ℕ)
    → Bytes xs
    → Bytes ys
    → zero_prefix xs ≡ 0
    → zero_prefix ys ≡ 0
    → spelled 256 0 xs ≡ spelled 256 0 ys
    → xs ≡ ys
same_bytes xs ys hx hy zx zy e = elim (Bool-cases (leb (length xs) (length ys))) [
  | inl fewer ↦ shorter_same (length ys - length xs) xs ys hx hy (ground arith) zy e
  | inr more ↦ sym (shorter_same (length xs - length ys) ys xs hy hx (ground arith) zx (sym e))
]

-- The table inverts the alphabet.
abbrev inverts : ℕ → Bool
inverts d =
    ltb (at base58_alphabet d) (length base58_table)
    && (at base58_table (at base58_alphabet d) == d)

abbrev all_invert : ℕ → Bool
all_invert zero = true
all_invert (suc n) = inverts n && all_invert n

inverts_at : (n d : ℕ) → all_invert n ≡ true → d < n → inverts d ≡ true
inverts_at zero d e h = absurd (omega arith)
inverts_at (suc n) d e h =
    let (here, below) = both (inverts n) (all_invert n) e in
    elim (same_or_not d n) [
      | inl same ↦ subst (λ m. inverts m ≡ true) (sym same) here
      | inr other ↦ inverts_at n d below (omega arith)
    ]

digit_inverts :
    (d : ℕ)
    → d < 58
    → (at base58_alphabet d < length base58_table) × (at base58_table (at base58_alphabet d) ≡ d)
digit_inverts d h =
    let (inside, back) =
      both (ltb (at base58_alphabet d) (length base58_table))
        (at base58_table (at base58_alphabet d) == d) (inverts_at 58 d refl h) in
    (
      ltb→lt (at base58_alphabet d) (length base58_table) inside,
      (==_iff (at base58_table (at base58_alphabet d)) d).0 back,
    )

pub decode_digits-map :
    (ds : List ℕ) → All IsDigit58 ds → decode_digits (map (at base58_alphabet) ds) ≡ some ds
unfolding decode_digits
decode_digits-map [] d = refl
decode_digits-map (x ∷ ds) d =
    let (inside, back) = digit_inverts x d.0 in
    let known : (leb (length base58_table) (at base58_alphabet x)
          || at base58_table (at base58_alphabet x) == 0xFF)
        ≡ false =
      ground (arith, d.0) in
    rw (known, decode_digits-map ds d.1) (ap (λ y. some (y ∷ ds)) back)

map-padded :
    (k : ℕ) (ds : List ℕ)
    → replicate k b'1' ++ map (at base58_alphabet) ds
      ≡ map (at base58_alphabet) (replicate k 0 ++ ds)
map-padded zero ds = refl
map-padded (suc k) ds = ap (λ l. b'1' ∷ l) (map-padded k ds)

pub length-characters : (ds : List ℕ) → length (map (at base58_alphabet) ds) ≡ length ds
length-characters [] = refl
length-characters (d ∷ ds) = ap suc (length-characters ds)

some-injective : (xs ys : List ℕ) → some xs ≡ some ys → xs ≡ ys
some-injective xs ys e = ap (λ o. elim o [ none ↦ xs | some zs ↦ zs ]) e

restored : (xs : List ℕ) → replicate (zero_prefix xs) 0 ++ drop (zero_prefix xs) xs ≡ xs
unfolding zero_prefix
restored [] = refl
restored (x ∷ xs) = elim (Bool-cases (x == 0)) [
  | inl is_zero ↦
      let e : x ≡ 0 = ground arith in rw is_zero (ap₂ (λ y ys. y ∷ ys) (sym e) (restored xs))
  | inr digit ↦ rw digit refl
]

-- Up to 118 bytes whose text has two characters or more are given back by `base58_decode`, if both
-- have the room that they can need.
pub base58_decode-encode :
    (input text : List ℕ) (out_len bytes_len : ℕ)
    → Bytes input
    → length input ≤ 118
    → digits_for (length input) ≤ out_len
    → base58_encode input out_len ≡ some text
    → 2 ≤ length text
    → length text ≤ bytes_len
    → base58_decode text bytes_len ≡ written input
base58_decode-encode input text out_len bytes_len bytes most room encoded least room' =
    let z = zero_prefix input in
    let (digits, encodes, d, first, number, most_digits) =
      base58_encode-spells input out_len bytes (omega arith) room in
    let padded = replicate z 0 ++ digits in
    let is_text : text ≡ map (at base58_alphabet) padded =
      some-injective text (map (at base58_alphabet) padded)
        (sym encoded ∙ encodes ∙ ap some (map-padded z digits)) in
    let all_digits = All-append IsDigit58 (replicate z 0) digits (All-zeros z 58 (omega arith)) d in
    let size : length padded ≡ length text = sym (ap length is_text ∙ length-characters padded) in
    let zeros : zero_prefix padded ≡ z = zero_prefix-padded z digits ∙ omega arith in
    let (out, decodes, out_bytes, out_first, out_number) =
      base58_decode-spells text padded bytes_len least
        (omega (arith, length-append (replicate z 0) digits, length-replicate {A = ℕ} z 0))
        (ap decode_digits is_text ∙ decode_digits-map padded all_digits) all_digits size room' in
    let rest = drop z input in
    let same : out ≡ rest =
      same_bytes out rest out_bytes (All-drop IsByte z input bytes) out_first
        (zero_prefix-drop input)
        (out_number ∙ spelled-padded 58 z digits ∙ number ∙ sym (spelled-drop_zeros 256 input)) in
    decodes ∙ ap₂ (λ k l. written (replicate k 0 ++ l)) zeros same ∙ ap written (restored input)

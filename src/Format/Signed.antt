-- ===== src/Format/Signed.antt =====
-- `format_i64` of src/common/format.c. C's division truncates: the digits of a negative number are
-- those of its magnitude.
use mathlib.Core.List.{reverse, reverse-append}
use native.Mathlib.Nat.{pow-suc}
use Prim.{absurd}
use hathor_ledger_app.Prelude.{
  ℕ, zero, suc, ◌+◌, ◌/◌, ◌%◌, ◌^◌, ◌≤◌, ◌<◌, ◌≡◌, refl, sym, ap, ◌∙◌, Bool, false, ◌||◌, List, [],
  ◌∷◌, ◌++◌, Option, none, some, append-nil, append_assoc, length, ltb, leb, ◌==◌, if◌then◌else◌,
  arith, Bool-cases, inl, inr,
}
use hathor_ledger_app.Format.Reverse.{length-reverse}
use hathor_ledger_app.Format.Decimal.{
  low_digits, low_digits_fuel, low_digits_one, low_digits_more, decimal,
}

pub data ℤ : Type 0 where
  pos : ℕ → ℤ
  negsuc : ℕ → ℤ

abbrev pub magnitude : ℤ → ℕ
magnitude (pos n) = n
magnitude (negsuc n) = suc n

-- while (num != 0)
unfoldable pub i64_digits : ℕ → ℕ → List ℕ → List ℕ
i64_digits zero num out = out
i64_digits (suc fuel) num out =
    let rest = i64_digits fuel (num / 10) (out ++ ((b'0' + num % 10) ∷ [])) in
    if num == 0 then out else rest

-- What is put behind the digits.
unfoldable pub i64_tail : ℤ → List ℕ
i64_tail (negsuc n) = b'-' ∷ []
i64_tail (pos zero) = b'0' ∷ []
i64_tail (pos (suc n)) = []

-- (int) dst_len < distance
unfoldable pub i64_too_long : ℕ → ℕ → Bool
i64_too_long dst_len distance = leb (2 ^ 31) dst_len || ltb dst_len distance

-- An `int64_t` has at most 19 digits.
unfoldable pub format_i64 : ℕ → ℤ → Option (List ℕ)
format_i64 dst_len value =
    let temp = i64_digits 19 (magnitude value) [] ++ i64_tail value in
    if dst_len == 0 || i64_too_long dst_len (length temp + 1) then none else some (reverse temp)

abbrev pub signed_text : ℤ → List ℕ
signed_text (pos n) = decimal n
signed_text (negsuc n) = b'-' ∷ decimal (suc n)

i64_digits_end : (f : ℕ) (out : List ℕ) → i64_digits f 0 out ≡ out
unfolding i64_digits
i64_digits_end zero out = refl
i64_digits_end (suc f) out = refl

i64_digits-low :
    (f n : ℕ) (out : List ℕ) → n < 10 ^ f → 0 < n → i64_digits f n out ≡ out ++ low_digits f n
unfolding i64_digits
i64_digits-low zero n out h p = absurd (omega arith)
i64_digits-low (suc f) n out h p =
    let d : b'0' + n % 10 ≡ n % 10 + b'0' = omega arith in
    let next = out ++ ((n % 10 + b'0') ∷ []) in
    let some_left : (n == 0) ≡ false = ground arith in
    rw (some_left, d)
      (elim (Bool-cases (ltb 9 n)) [
        | inl more ↦
            i64_digits-low f (n / 10) next (omega (arith, pow-suc 10 f)) (ground arith)
            ∙ append_assoc out ((n % 10 + b'0') ∷ []) (low_digits f (n / 10))
            ∙ ap (λ l. out ++ l) (sym (low_digits_more f n (ground arith)))
        | inr last ↦
            let none_left : n / 10 ≡ 0 = ground arith in
            let same : n % 10 ≡ n = ground arith in
            ap (λ k. i64_digits f k next) none_left
            ∙ i64_digits_end f next
            ∙ ap (λ k. out ++ ((k + b'0') ∷ [])) same
            ∙ ap (λ l. out ++ l) (sym (low_digits_one f n (ground arith)))
      ])

digits-decimal : (n : ℕ) → 0 < n → n < 10 ^ 19 → reverse (i64_digits 19 n []) ≡ decimal n
unfolding decimal
digits-decimal n p h =
    ap reverse (i64_digits-low 19 n [] h p ∙ low_digits_fuel 19 20 n h (omega arith) (omega arith))

zero_text : reverse (i64_digits 19 0 [] ++ (b'0' ∷ [])) ≡ decimal 0
unfolding i64_digits decimal low_digits
zero_text = refl

written :
    (value : ℤ)
    → magnitude value < 10 ^ 19
    → reverse (i64_digits 19 (magnitude value) [] ++ i64_tail value) ≡ signed_text value
unfolding i64_tail
written (pos zero) h = zero_text
written (pos (suc n)) h =
    ap reverse (append-nil (i64_digits 19 (suc n) [])) ∙ digits-decimal (suc n) (omega arith) h
written (negsuc n) h =
    reverse-append (i64_digits 19 (suc n) []) (b'-' ∷ [])
    ∙ ap (λ l. b'-' ∷ l) (digits-decimal (suc n) (omega arith) h)

-- Given a length below 2 ^ 31, `format_i64` writes the decimal text of every number that an
-- `int64_t` can be, behind a minus sign if it is negative, and refuses exactly when the text and
-- its terminator do not fit.
pub format_i64-decimal :
    (dst_len : ℕ) (value : ℤ)
    → dst_len < 2 ^ 31
    → magnitude value ≤ 2 ^ 63
    → format_i64 dst_len value
      ≡ (if ltb dst_len (length (signed_text value) + 1) then none else some (signed_text value))
unfolding format_i64 i64_too_long
format_i64-decimal dst_len value small range =
    let temp = i64_digits 19 (magnitude value) [] ++ i64_tail value in
    let text = written value (omega arith) in
    let size : length temp ≡ length (signed_text value) =
      sym (length-reverse temp) ∙ ap length text in
    let fits : (dst_len == 0 || (leb (2 ^ 31) dst_len || ltb dst_len (length temp + 1)))
        ≡ ltb dst_len (length (signed_text value) + 1) =
      ground arith in
    rw (fits, text) refl

-- ===== src/Format/Digits.antt =====
-- The characters of a decimal text, and how many there are.
use mathlib.Core.List.{reverse, reverse-cons}
use hathor_ledger_app.Prelude.{
  ℕ, zero, suc, ◌/◌, ◌^◌, ◌≤◌, ◌<◌, ◌≡◌, refl, false, some, ltb, ◌+◌, sym, ap, ◌∙◌, List, [], ◌∷◌,
  All, All-append, length, ◌==◌, arith, Bool-cases, inl, inr,
}
use hathor_ledger_app.Result.{ok}
use hathor_ledger_app.Format.{format_u64, itoa}
use hathor_ledger_app.Format.Decimal.{
  format_u64-decimal, itoa-decimal, low_digits, low_digits_fuel, length-low_digits, decimal,
}
use hathor_ledger_app.Format.Reverse.{length-reverse}

abbrev pub IsDigit : ℕ → Type 0
IsDigit c = (b'0' ≤ c) × (c ≤ b'9')

low_digits-IsDigit : (f n : ℕ) → All IsDigit (low_digits f n)
unfolding low_digits
low_digits-IsDigit zero n = tt
low_digits-IsDigit (suc f) n = (
  (omega arith, omega arith),
  elim (Bool-cases (n / 10 == 0)) [
    | inl done ↦ rw done tt
    | inr more ↦ rw more (low_digits-IsDigit f (n / 10))
  ],
)

length-low_digits_most : (f n : ℕ) → length (low_digits f n) ≤ f
unfolding low_digits
length-low_digits_most zero n = omega arith
length-low_digits_most (suc f) n = ground (arith, length-low_digits_most f (n / 10))

reverse-IsDigit : (xs : List ℕ) → All IsDigit xs → All IsDigit (reverse xs)
reverse-IsDigit [] d = tt
reverse-IsDigit (x ∷ xs) d =
    rw (reverse-cons x xs)
      (All-append IsDigit (reverse xs) (x ∷ []) (reverse-IsDigit xs d.1) (d.0, tt))

pub decimal-IsDigit : (n : ℕ) → All IsDigit (decimal n)
unfolding decimal
decimal-IsDigit n = reverse-IsDigit (low_digits 20 n) (low_digits-IsDigit 20 n)

pub length-decimal :
    (k n : ℕ) → n < 10 ^ k → 0 < k → k ≤ 20 → (0 < length (decimal n)) × (length (decimal n) ≤ k)
unfolding decimal
length-decimal k n h p most =
    let count =
      length-reverse (low_digits 20 n) ∙ ap length (sym (low_digits_fuel k 20 n h most p)) in
    (
      omega (arith, count, length-low_digits k n p),
      omega (arith, count, length-low_digits_most k n),
    )

-- For a number that an `int` can be from 0 on, `itoa` in base 10 writes the text that `format_u64`
-- writes into a buffer of at least 11 bytes, where `format_u64` neither refuses nor writes past the
-- end.
pub format_u64-itoa :
    (out_len n : ℕ) → n < 2 ^ 31 → 11 ≤ out_len → format_u64 out_len n ≡ ok (some (itoa n))
format_u64-itoa out_len n h room =
    let text = format_u64-decimal out_len n (omega arith) (omega arith) in
    let count = length-decimal 10 n (omega arith) (omega arith) (omega arith) in
    let fits : ltb out_len (length (decimal n) + 1) ≡ false = ground arith in
    rw (text.0, fits, itoa-decimal n h) refl

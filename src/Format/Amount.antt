-- ===== src/Format/Amount.antt =====
-- `format_value`: the text of an amount on the screen.
use Prim.{absurd}
use mathlib.Core.List.{reverse}
use hathor_ledger_app.Prelude.{
  ℕ, ◌+◌, ◌-◌, ◌/◌, ◌%◌, ◌^◌, ◌≤◌, ◌<◌, ◌≡◌, refl, ap, ◌∙◌, true, false, not, ◌&&◌, List, [], ◌∷◌,
  ◌++◌, All, length, ltb, ◌==◌, if◌then◌else◌, arith, Bool-cases, inl, inr,
}
use hathor_ledger_app.Format.{group_digits, drop_last, format_value, itoa}
use hathor_ledger_app.Format.Decimal.{
  low_digits_one, low_digits_more, decimal, read_decimal, format_u64-decimal, itoa-decimal,
}
use hathor_ledger_app.Format.Digits.{IsDigit, decimal-IsDigit, length-decimal}

-- Digits with a comma before every group of three, counted from the end.
abbrev pub with_commas : List ℕ → List ℕ
with_commas [] = []
with_commas (d ∷ ds) =
    d
    ∷ (if not (length ds == 0) && length ds % 3 == 0 then b',' ∷ with_commas ds else with_commas ds)

-- The last comma that the loop writes is dropped.
group_digits-with_commas :
    (ps : List ℕ) (c : ℕ)
    → 0 < length ps
    → c < 3
    → (c + length ps) % 3 ≡ 2
    → drop_last (group_digits ps c) ≡ with_commas ps
unfolding group_digits drop_last
group_digits-with_commas [] c p small e = absurd (omega arith)
group_digits-with_commas (x ∷ []) c p small e = ground arith
group_digits-with_commas (x ∷ y ∷ ps) c p small e =
    let rest =
      group_digits-with_commas (y ∷ ps) ((c + 1) % 3) (omega arith) (omega arith) (omega arith) in
    elim (Bool-cases (c == 1)) [
      | inl comma ↦
          let third : (not (length (y ∷ ps) == 0) && length (y ∷ ps) % 3 == 0) ≡ true =
            ground arith in
          rw (comma, third) (ap (λ l. x ∷ b',' ∷ l) rest)
      | inr no_comma ↦
          let between : (not (length (y ∷ ps) == 0) && length (y ∷ ps) % 3 == 0) ≡ false =
            ground arith in
          rw (no_comma, between) (ap (λ l. x ∷ l) rest)
    ]

cents_one : (m : ℕ) → m ≤ 9 → decimal m ≡ (m + b'0') ∷ []
unfolding decimal
cents_one m h = ap reverse (low_digits_one 19 m h)

cents_two : (m : ℕ) → 9 < m → m < 100 → decimal m ≡ (m / 10 + b'0') ∷ (m % 10 + b'0') ∷ []
unfolding decimal
cents_two m h small = ap reverse (
    low_digits_more 19 m h
    ∙ ap (λ l. (m % 10 + b'0') ∷ l) (low_digits_one 18 (m / 10) (omega arith)))

abbrev cents : ℕ → List ℕ
cents m = if ltb m 10 then b'0' ∷ itoa m else itoa m

-- The two digits of a number below 100.
abbrev pub two_digits : ℕ → List ℕ
two_digits m = (m / 10 + b'0') ∷ (m % 10 + b'0') ∷ []

cents-two_digits : (m : ℕ) → m < 100 → cents m ≡ two_digits m
cents-two_digits m small = elim (Bool-cases (ltb m 10)) [
  | inl one ↦
      let none_before : m / 10 ≡ 0 = ground arith in
      let same : m % 10 ≡ m = ground arith in
      rw (one, itoa-decimal m (omega arith), cents_one m (ground arith), none_before, same) refl
  | inr two ↦ rw (two, itoa-decimal m (omega arith), cents_two m (ground arith) small) refl
]

-- The text of an amount of 64 bits on the screen is exactly this: the whole units in decimal with a
-- comma before every group of three digits, a point, and the two digits of the hundredths. The
-- digits of the units are characters from 0 to 9 and spell them.
pub format_value-text :
    (value : ℕ)
    → value < 2 ^ 64
    → (format_value value
        ≡ with_commas (decimal (value / 100)) ++ (b'.' ∷ two_digits (value % 100)))
      × All IsDigit (decimal (value / 100))
      × (read_decimal (decimal (value / 100)) ≡ value / 100)
unfolding format_value
format_value-text value small =
    let written = format_u64-decimal 35 (value / 100) (omega arith) (omega arith) in
    let digits = decimal (value / 100) in
    let count = length-decimal 20 (value / 100) (omega arith) (omega arith) (omega arith) in
    let room : ltb 35 (length digits + 1) ≡ false = ground arith in
    let c = 2 - length digits % 3 in
    (
      rw
          (
            format_value,
            written.0,
            room,
            group_digits-with_commas digits c count.0 (omega arith) (omega arith),
            cents-two_digits (value % 100) (omega arith),
          )
          refl,
      decimal-IsDigit _,
      written.1,
    )

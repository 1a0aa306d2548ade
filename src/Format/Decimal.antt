-- ===== src/Format/Decimal.antt =====
-- The decimal text of a number, and that `format_u64` and `itoa` write it.
use mathlib.Core.List.{reverse, reverse-cons}
use native.Mathlib.Nat.{pow-suc}
use Prim.{absurd}
use hathor_ledger_app.Prelude.{
  ℕ, zero, suc, ◌+◌, ◌-◌, ◌*◌, ◌/◌, ◌%◌, ◌^◌, ◌≤◌, ◌<◌, ◌≡◌, refl, sym, ap, ◌∙◌, false, ◌&&◌, List,
  [], ◌∷◌, ◌++◌, none, some, append-nil, append_assoc, length, length-append, ltb, leb, ◌==◌,
  if◌then◌else◌, arith, Bool-cases, inl, inr, ltb→lt,
}
use hathor_ledger_app.Result.{ok, fault}
use hathor_ledger_app.Format.{u64_digits, format_u64, itoa_digits, itoa}
use hathor_ledger_app.Format.Reverse.{swap_ends-reverse, length-reverse}

-- The characters of the digits, the lowest first, of a number of at most so many digits.
unfoldable pub low_digits : ℕ → ℕ → List ℕ
low_digits zero n = []
low_digits (suc f) n =
    let rest = low_digits f (n / 10) in (n % 10 + b'0') ∷ (if n / 10 == 0 then [] else rest)

-- The decimal text of a number of at most 20 digits.
unfoldable pub decimal : ℕ → List ℕ
decimal n = reverse (low_digits 20 n)

-- The number that a text of digits spells, behind what has been read.
abbrev pub read_from : ℕ → List ℕ → ℕ
read_from acc [] = acc
read_from acc (c ∷ cs) = read_from (acc * 10 + (c - b'0')) cs

abbrev pub read_decimal : List ℕ → ℕ
read_decimal text = read_from 0 text

abbrev value_low : List ℕ → ℕ
value_low [] = 0
value_low (d ∷ ds) = d - b'0' + 10 * value_low ds

read_from-append :
    (acc : ℕ) (xs : List ℕ) (y : ℕ)
    → read_from acc (xs ++ (y ∷ [])) ≡ read_from acc xs * 10 + (y - b'0')
read_from-append acc [] y = refl
read_from-append acc (x ∷ xs) y = read_from-append (acc * 10 + (x - b'0')) xs y

read-reverse : (xs : List ℕ) → read_decimal (reverse xs) ≡ value_low xs
read-reverse [] = refl
read-reverse (x ∷ xs) =
    rw (reverse-cons x xs) (read_from-append 0 (reverse xs) x ∙ omega (arith, read-reverse xs))

value-low_digits : (f n : ℕ) → n < 10 ^ f → value_low (low_digits f n) ≡ n
unfolding low_digits
value-low_digits zero n h = omega arith
value-low_digits (suc f) n h =
    let rest = value-low_digits f (n / 10) (omega (arith, pow-suc 10 f)) in ground arith

some_fuel : (f n : ℕ) → 0 < n → n < 10 ^ f → 0 < f
some_fuel zero n p h = absurd (omega arith)
some_fuel (suc f) n p h = omega arith

-- More digits than there are change nothing.
pub low_digits_fuel : (f g n : ℕ) → n < 10 ^ f → f ≤ g → 0 < f → low_digits f n ≡ low_digits g n
unfolding low_digits
low_digits_fuel zero g n h fits p = absurd (omega arith)
low_digits_fuel (suc f) zero n h fits p = absurd (omega arith)
low_digits_fuel (suc f) (suc g) n h fits p = elim (Bool-cases (n / 10 == 0)) [
  | inl done ↦ rw done
  | inr more ↦
      let large : 0 < n / 10 = ground arith in
      let small : n / 10 < 10 ^ f = omega (arith, pow-suc 10 f) in
      rw more (
        ap (λ r. (n % 10 + b'0') ∷ r)
          (low_digits_fuel f g (n / 10) small (omega arith) (some_fuel f (n / 10) large small)))
]

pub low_digits_one : (f n : ℕ) → n ≤ 9 → low_digits (suc f) n ≡ (n + b'0') ∷ []
unfolding low_digits
low_digits_one f n h = ground arith

pub low_digits_more :
    (f n : ℕ) → 9 < n → low_digits (suc f) n ≡ (n % 10 + b'0') ∷ low_digits f (n / 10)
unfolding low_digits
low_digits_more f n h = ground arith

pub length-low_digits : (f n : ℕ) → 0 < f → 0 < length (low_digits f n)
unfolding low_digits
length-low_digits zero n h = absurd (omega arith)
length-low_digits (suc f) n h = omega arith

length-low_digits_more : (f n : ℕ) → 9 < n → 0 < f → 1 < length (low_digits (suc f) n)
length-low_digits_more f n h p =
    let e = ap length (low_digits_more f n h) in omega (arith, length-low_digits f (n / 10) p)

-- The room is tested before every digit but the first; the last test decides.
tests :
    (room early full n : ℕ) (t : List ℕ)
    → early ≤ full
    → (n ≤ 9 → full ≡ early)
    → (if ltb room early then none else if ltb 9 n && ltb room full then none else some t)
      ≡ (if ltb room full then none else some t)
tests room early full n t h same = ground arith

u64_digits-low :
    (f room n : ℕ) (out : List ℕ)
    → n < 10 ^ suc f
    → u64_digits (suc f) room n out ≡ (
        if ltb 9 n && ltb room (length (out ++ low_digits (suc f) n))
        then none
        else some (out ++ low_digits (suc f) n))
unfolding u64_digits
u64_digits-low zero room n out h = elim (Bool-cases (ltb 9 n)) [
  | inr one ↦ rw (one, low_digits_one 0 n (ground arith)) refl
  | inl large ↦ absurd (ground arith)
]
u64_digits-low (suc f) room n out h = elim (Bool-cases (ltb 9 n)) [
  | inr one ↦ rw (one, low_digits_one (suc f) n (ground arith)) refl
  | inl large ↦
      let more = ltb→lt 9 n large in
      let next = out ++ ((n % 10 + b'0') ∷ []) in
      let low = low_digits (suc f) (n / 10) in
      let joined : next ++ low ≡ out ++ low_digits (suc (suc f)) n =
        append_assoc out ((n % 10 + b'0') ∷ []) low
        ∙ ap (λ l. out ++ l) (sym (low_digits_more (suc f) n more)) in
      let count : length (out ++ low_digits (suc (suc f)) n) ≡ length next + length low =
        ap length (sym joined) ∙ length-append next low in
      rw (large, u64_digits-low f room (n / 10) next (omega (arith, pow-suc 10 (suc f))), joined)
        (tests room (length next + 1) (length (out ++ low_digits (suc (suc f)) n)) (n / 10) _
          (omega (arith, length-low_digits (suc f) (n / 10)))
          (λ last. let e = ap length (low_digits_one f (n / 10) last) in omega arith))
]

itoa_digits-low : (f v : ℕ) (out : List ℕ) → itoa_digits f v out ≡ out ++ low_digits f v
unfolding low_digits itoa_digits
itoa_digits-low zero v out = sym (append-nil out)
itoa_digits-low (suc f) v out =
    let d : b'0' + (v - v / 10 * 10) ≡ v % 10 + b'0' = omega arith in
    rw d (elim (Bool-cases (v / 10 == 0)) [
      | inl done ↦ rw done
      | inr more ↦
          rw (more, itoa_digits-low f (v / 10))
            (append_assoc out ((v % 10 + b'0') ∷ []) (low_digits f (v / 10)))
    ])

fits_text :
    (out_len n l m : ℕ) (t : List ℕ)
    → 0 < out_len
    → l ≡ m
    → (ltb 9 n && ltb (out_len - 1) m) ≡ false
    → (if out_len == 0 then ok none else if leb out_len m then fault else ok (some t))
      ≡ (if ltb out_len (l + 1) then (if ltb 9 n then ok none else fault) else ok (some t))
fits_text out_len n l m t p e h = ground arith

-- Into a buffer that is not empty, `format_u64` writes the decimal text of a number of at most 20
-- digits, which every `uint64_t` is, if the text and its terminator fit. Where they do not, it
-- refuses a number of several digits, and writes past the end for a number of one digit. The text
-- spells the number.
pub format_u64-decimal :
    (out_len n : ℕ)
    → 0 < out_len
    → n < 10 ^ 20
    → (format_u64 out_len n ≡ (
        if ltb out_len (length (decimal n) + 1)
        then (if ltb 9 n then ok none else fault)
        else ok (some (decimal n))))
      × (read_decimal (decimal n) ≡ n)
unfolding format_u64 decimal
format_u64-decimal out_len n p h =
    let low = low_digits 20 n in
    let digits = u64_digits-low 19 (out_len - 1) n [] h in
    let count : length (reverse low) ≡ length low = length-reverse low in
    (
      elim (Bool-cases (ltb 9 n && ltb (out_len - 1) (length low))) [
        | inl full ↦ rw (digits, full) (ground arith)
        | inr room ↦
            rw (digits, room, swap_ends-reverse low)
              (fits_text out_len n (length (reverse low)) (length low) (reverse low) p count room)
      ],
      read-reverse low ∙ value-low_digits 20 n h,
    )

-- `itoa` in base 10 writes the decimal text.
pub itoa-decimal : (n : ℕ) → n < 2 ^ 31 → itoa n ≡ decimal n
unfolding itoa decimal
itoa-decimal n h =
    let e : itoa_digits 10 n [] ≡ low_digits 20 n =
      itoa_digits-low 10 n [] ∙ low_digits_fuel 10 20 n (omega arith) (omega arith) (omega arith) in
    rw e (swap_ends-reverse (low_digits 20 n))

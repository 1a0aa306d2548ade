-- ===== src/Base58/Value.antt =====
-- The number that digits spell in a base, the highest first.
use Prim.{absurd}
use hathor_ledger_app.Prelude.{
  same_or_not, ℕ, zero, suc, ◌+◌, ◌*◌, ◌/◌, ◌^◌, ◌≤◌, ◌<◌, ◌≡◌, refl, sym, subst, ap, ◌∙◌, Bool,
  true, false, ◌&&◌, List, [], ◌∷◌, set, take, take_all, drop, length, leb, leb→le, ◌==◌, arith,
  Bool-cases, inl, inr,
}
use hathor_ledger_app.Bytes.{at}
use hathor_ledger_app.Bytes.RoundTrip.{at-set_ne}
use hathor_ledger_app.Base58.{zero_prefix}

abbrev pub spelled : ℕ → ℕ → List ℕ → ℕ
spelled base acc [] = acc
spelled base acc (x ∷ xs) = spelled base (acc * base + x) xs

-- The number that the first digits of a list spell in base 58.
abbrev pub prefix : ℕ → List ℕ → ℕ
prefix zero b = 0
prefix (suc j) b = prefix j b * 58 + at b j

spelled-take :
    (acc j : ℕ) (b : List ℕ)
    → j < length b
    → spelled 58 acc (take (suc j) b) ≡ spelled 58 acc (take j b) * 58 + at b j
spelled-take acc j [] h = absurd (omega arith)
spelled-take acc zero (x ∷ b) h = refl
spelled-take acc (suc j) (x ∷ b) h = spelled-take (acc * 58 + x) j b (omega arith)

prefix-take : (j : ℕ) (b : List ℕ) → j ≤ length b → prefix j b ≡ spelled 58 0 (take j b)
prefix-take zero b h = refl
prefix-take (suc j) b h =
    omega (arith, prefix-take j b (omega arith), spelled-take 0 j b (omega arith))

pub prefix-all : (b : List ℕ) → prefix (length b) b ≡ spelled 58 0 b
prefix-all b =
    prefix-take (length b) b (omega arith) ∙ ap (spelled 58 0) (take_all (length b) b (omega arith))

pub prefix-set : (j i v : ℕ) (b : List ℕ) → j ≤ i → prefix j (set b i v) ≡ prefix j b
prefix-set zero i v b h = refl
prefix-set (suc j) i v b h =
    omega (arith, prefix-set j i v b (omega arith), at-set_ne b i j v (omega arith))

pub prefix-zeros : (j : ℕ) (b : List ℕ) → ((i : ℕ) → i < j → at b i ≡ 0) → prefix j b ≡ 0
prefix-zeros zero b h = refl
prefix-zeros (suc j) b h =
    omega (arith, h j (omega arith), prefix-zeros j b (λ i l. h i (omega arith)))

-- Leading zeros do not count.
pub spelled-drop_zeros :
    (base : ℕ) (xs : List ℕ) → spelled base 0 (drop (zero_prefix xs) xs) ≡ spelled base 0 xs
unfolding zero_prefix
spelled-drop_zeros base [] = refl
spelled-drop_zeros base (x ∷ xs) = elim (Bool-cases (x == 0)) [
  | inl is_zero ↦
      let e : 0 * base + x ≡ 0 = ground arith in rw (is_zero, e) (spelled-drop_zeros base xs)
  | inr digit ↦ rw digit refl
]

pub zero_prefix-drop : (xs : List ℕ) → zero_prefix (drop (zero_prefix xs) xs) ≡ 0
unfolding zero_prefix
zero_prefix-drop [] = refl
zero_prefix-drop (x ∷ xs) = elim (Bool-cases (x == 0)) [
  | inl is_zero ↦ rw is_zero (zero_prefix-drop xs)
  | inr digit ↦ rw digit (rw digit refl)
]

pub zero_prefix_most : (xs : List ℕ) → zero_prefix xs ≤ length xs
unfolding zero_prefix
zero_prefix_most [] = omega arith
zero_prefix_most (x ∷ xs) = ground (arith, zero_prefix_most xs)

-- That many digits are enough in base 58 for so many bytes.
abbrev pub digits_for : ℕ → ℕ
digits_for bytes = bytes * 138 / 100 + 1

abbrev enough : ℕ → Bool
enough zero = true
enough (suc k) = leb (256 ^ suc k) (58 ^ digits_for (suc k)) && enough k

pub both : (a b : Bool) → (a && b) ≡ true → (a ≡ true) × (b ≡ true)
both true b e = (refl, e)
both false b e = absurd (ground arith)

enough_at : (n k : ℕ) → enough n ≡ true → k ≤ n → 256 ^ k ≤ 58 ^ digits_for k
enough_at zero k e h =
    let none_yet : k ≡ 0 = omega arith in
    subst (λ m. 256 ^ m ≤ 58 ^ digits_for m) (sym none_yet) (omega arith)
enough_at (suc n) k e h =
    let (here, below) = both (leb (256 ^ suc n) (58 ^ digits_for (suc n))) (enough n) e in
    elim (same_or_not k (suc n)) [
      | inl same ↦
          subst (λ m. 256 ^ m ≤ 58 ^ digits_for m) (sym same)
            (leb→le (256 ^ suc n) (58 ^ digits_for (suc n)) here)
      | inr other ↦ enough_at n k below (omega arith)
    ]

pub digits_for_most : (k : ℕ) → k ≤ 120 → 256 ^ k ≤ 58 ^ digits_for k
digits_for_most k h = enough_at 120 k refl h

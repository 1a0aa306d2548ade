-- ===== src/Format/Reverse.antt =====
-- The loop of `format_u64` and of `itoa` that reverses a text in place.
use mathlib.Core.List.{reverse, reverse-cons}
use Prim.{absurd}
use native.Mathlib.Decide.{dec_lt}
use hathor_ledger_app.Prelude.{
  Bool-cases, inl, inr, ltb→lt, ℕ, zero, suc, ◌+◌, ◌-◌, ◌*◌, ◌≤◌, ◌<◌, ◌≡◌, refl, sym, ap, ap₂, ◌∙◌,
  ◌&&◌, List, [], ◌∷◌, ◌++◌, set, length, length-append, length-set, ltb, leb, ◌==◌, if◌then◌else◌,
  arith,
}
use hathor_ledger_app.Bytes.{at}
use hathor_ledger_app.Format.{swap_ends}

-- Two lists with the same elements at all places are equal.
at_ext :
    (xs ys : List ℕ)
    → length xs ≡ length ys
    → ((k : ℕ) → k < length xs → at xs k ≡ at ys k)
    → xs ≡ ys
at_ext [] [] e h = refl
at_ext [] (y ∷ ys) e h = absurd (omega arith)
at_ext (x ∷ xs) [] e h = absurd (omega arith)
at_ext (x ∷ xs) (y ∷ ys) e h =
    ap₂ (◌∷◌) (h 0 (omega arith)) (at_ext xs ys (omega arith) (λ k p. h (suc k) (omega arith)))

at-append_left : (xs ys : List ℕ) (k : ℕ) → k < length xs → at (xs ++ ys) k ≡ at xs k
at-append_left [] ys k h = absurd (omega arith)
at-append_left (x ∷ xs) ys zero h = refl
at-append_left (x ∷ xs) ys (suc k) h = at-append_left xs ys k (omega arith)

at-append_last : (xs : List ℕ) (y k : ℕ) → k ≡ length xs → at (xs ++ (y ∷ [])) k ≡ y
at-append_last [] y zero e = refl
at-append_last [] y (suc k) e = absurd (omega arith)
at-append_last (x ∷ xs) y zero e = absurd (omega arith)
at-append_last (x ∷ xs) y (suc k) e = at-append_last xs y k (omega arith)

pub length-reverse : (xs : List ℕ) → length (reverse xs) ≡ length xs
length-reverse [] = refl
length-reverse (x ∷ xs) =
    rw (reverse-cons x xs) (omega (arith, length-append (reverse xs) (x ∷ []), length-reverse xs))

at-reverse : (xs : List ℕ) (k : ℕ) → k < length xs → at (reverse xs) k ≡ at xs (length xs - 1 - k)
at-reverse [] k h = absurd (omega arith)
at-reverse (x ∷ xs) k h = rw (reverse-cons x xs) (elim (dec_lt k (length xs)) [
  | yes early ↦
      let e : suc (length xs - 1 - k) ≡ suc (length xs) - 1 - k = omega arith in
      at-append_left (reverse xs) (x ∷ []) k (omega (arith, length-reverse xs))
      ∙ at-reverse xs k early
      ∙ ap (at (x ∷ xs)) e
  | no late ↦
      let e : 0 ≡ suc (length xs) - 1 - k = omega arith in
      at-append_last (reverse xs) x k (omega (arith, length-reverse xs)) ∙ ap (at (x ∷ xs)) e
])

at-set : (p : List ℕ) (i j v : ℕ) → i < length p → at (set p i v) j ≡ (if j == i then v else at p j)
at-set [] i j v h = absurd (omega arith)
at-set (x ∷ p) zero zero v h = refl
at-set (x ∷ p) (suc i) (suc j) v h = ground (arith, at-set p i j v)
at-set (x ∷ p) i j v h = ground arith

-- One exchange.
at-swap :
    (out : List ℕ) (j i m : ℕ)
    → j < i
    → i < length out
    → at (set (set out j (at out i)) i (at out j)) m
      ≡ (if m == i then at out j else if m == j then at out i else at out m)
at-swap out j i m h fits = ground (
  arith,
  at-set (set out j (at out i)) i m (at out j),
  at-set out j m (at out i),
  length-set out j (at out i),
)

-- Where the places have met, nothing is left to exchange.
at_met :
    (out : List ℕ) (j i k : ℕ)
    → i ≤ j
    → at out k ≡ (if leb j k && leb k i then at out (j + i - k) else at out k)
at_met out j i k h = elim (Bool-cases (leb j k && leb k i)) [
  | inl inside ↦ rw inside (let e : k ≡ j + i - k = ground arith in ap (at out) e)
  | inr outside ↦ rw outside
]

at-swap_ends :
    (rounds : ℕ) (out : List ℕ) (j i k : ℕ)
    → i ≤ j + 2 * rounds
    → i < length out
    → at (swap_ends rounds out j i) k
      ≡ (if leb j k && leb k i then at out (j + i - k) else at out k)
unfolding swap_ends
at-swap_ends zero out j i k h fits = at_met out j i k (omega arith)
at-swap_ends (suc rounds) out j i k h fits =
    let out' = set (set out j (at out i)) i (at out j) in
    let same : length out' ≡ length out =
      length-set (set out j (at out i)) i (at out j) ∙ length-set out j (at out i) in
    elim (Bool-cases (ltb j i)) [
      | inr met ↦ rw met (at_met out j i k (ground arith))
      | inl apart ↦
          let near : j < i = ltb→lt j i apart in
          let e : j + 1 + (i - 1) - k ≡ j + i - k = omega arith in
          rw apart (
            at-swap_ends rounds out' (j + 1) (i - 1) k (omega arith) (omega arith)
            ∙ ground (
              arith,
              at-swap out j i k near fits,
              at-swap out j i (j + i - k) near fits,
              ap (at out') e,
              ap (at out),
            ))
    ]

length-swap_ends :
    (rounds : ℕ) (out : List ℕ) (j i : ℕ) → length (swap_ends rounds out j i) ≡ length out
unfolding swap_ends
length-swap_ends zero out j i = refl
length-swap_ends (suc rounds) out j i =
    let out' = set (set out j (at out i)) i (at out j) in
    ground (
      arith,
      length-swap_ends rounds out' (j + 1) (i - 1),
      length-set (set out j (at out i)) i (at out j),
      length-set out j (at out i),
    )

ends-reverse :
    (out : List ℕ) → 0 < length out → swap_ends (length out) out 0 (length out - 1) ≡ reverse out
ends-reverse out some =
    let same = length-swap_ends (length out) out 0 (length out - 1) in
    at_ext _ _ (same ∙ sym (length-reverse out)) λ k h.
      let inside : k < length out = omega arith in
      let e : 0 + (length out - 1) - k ≡ length out - 1 - k = omega arith in
      let swapped =
        at-swap_ends (length out) out 0 (length out - 1) k (omega arith) (omega arith) in
      ground (arith, at-reverse out k inside, ap (at out) e)

-- Started at the ends of a text, the loop reverses it.
pub swap_ends-reverse : (out : List ℕ) → swap_ends (length out) out 0 (length out - 1) ≡ reverse out
swap_ends-reverse [] = unfold swap_ends in refl
swap_ends-reverse (x ∷ xs) = ends-reverse (x ∷ xs) (omega arith)

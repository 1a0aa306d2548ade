-- ===== src/Display/Sort.antt =====
-- `inplace_selection_sort` of src/ui/display.c: the result is in order, and has the numbers it was
-- given.
use Prim.{absurd}
use hathor_ledger_app.Prelude.{
  same_or_not, All, ℕ, zero, suc, ◌+◌, ◌-◌, ◌≤◌, ◌<◌, ◌≡◌, ◌≢◌, ◌⊎◌, inl, inr, refl, sym, subst, ap,
  ◌∙◌, true, false, List, [], ◌∷◌, set, length, length-set, ltb, ◌==◌, if◌then◌else◌, arith,
  Bool-cases, ltb→lt,
}
use hathor_ledger_app.Bytes.{at}
use hathor_ledger_app.Bytes.RoundTrip.{at-set_self, at-set_ne}
use hathor_ledger_app.Display.{least_position, sort_loop, inplace_selection_sort}

unfoldable pub is_at : ℕ → ℕ → ℕ
is_at x c = if x == c then 1 else 0

-- How often a number occurs.
abbrev pub count : ℕ → List ℕ → ℕ
count c [] = 0
count c (x ∷ xs) = is_at x c + count c xs

-- The elements before `i` are at their places: none behind is less.
abbrev pub Ordered : ℕ → ℕ → List ℕ → Type 0
Ordered i len list = (a b : ℕ) → a < i → a < b → b < len → at list a ≤ at list b

abbrev Least : ℕ → ℕ → ℕ → List ℕ → ℕ → Type 0
Least rounds j position list p =
    ((p ≡ position) ⊎ ((j ≤ p) × (p < j + rounds)))
    × (at list p ≤ at list position)
    × ((k : ℕ) → j ≤ k → k < j + rounds → at list p ≤ at list k)

from_next :
    (f : ℕ → ℕ) (m j n : ℕ)
    → m ≤ f j
    → ((k : ℕ) → j + 1 ≤ k → k < j + 1 + n → m ≤ f k)
    → (k : ℕ) → j ≤ k
    → k < j + suc n
    → m ≤ f k
from_next f m j n first rest k h l = elim (same_or_not k j) [
  | inl same ↦ omega (arith, ap f same)
  | inr other ↦ rest k (omega arith) (omega arith)
]

least_position-Least :
    (rounds j position : ℕ) (list : List ℕ)
    → Least rounds j position list (least_position rounds j position list)
unfolding least_position
least_position-Least zero j position list = (inl refl, omega arith, λ k h l. absurd (omega arith))
least_position-Least (suc rounds) j position list =
    elim (Bool-cases (ltb (at list j) (at list position))) [
      | inl less ↦
          let (place, low, rest) = least_position-Least rounds (j + 1) j list in
          let h = ltb→lt _ _ less in
          rw less (inr (omega arith), omega arith, from_next (at list) _ j rounds low rest)
      | inr not_less ↦
          let (place, low, rest) = least_position-Least rounds (j + 1) position list in
          let h : at list position ≤ at list j = ground arith in
          rw not_less (omega arith, low, from_next (at list) _ j rounds (omega arith) rest)
    ]

abbrev swapped : ℕ → ℕ → List ℕ → List ℕ
swapped p i list = if p == i then list else set (set list p (at list i)) i (at list p)

count-set :
    (c : ℕ) (xs : List ℕ) (i v : ℕ)
    → i < length xs
    → count c (set xs i v) + is_at (at xs i) c ≡ count c xs + is_at v c
count-set c [] i v h = absurd (omega arith)
count-set c (x ∷ xs) zero v h = omega arith
count-set c (x ∷ xs) (suc i) v h = omega (arith, count-set c xs i v (omega arith))

module _ (p i : ℕ) (list : List ℕ) (hp : p < length list) (hi : i < length list) where
  length-swapped : length (swapped p i list) ≡ length list
  length-swapped = elim (Bool-cases (p == i)) [
    | inl same ↦ rw same refl
    | inr other ↦ rw other (length-set _ i _ ∙ length-set list p _)
  ]

  count-swapped : (c : ℕ) → count c (swapped p i list) ≡ count c list
  count-swapped c = elim (Bool-cases (p == i)) [
    | inl same ↦ rw same refl
    | inr other ↦
        let n = length-set list p (at list i) in
        let kept = at-set_ne list p i (at list i) (ground arith) in
        let one = count-set c list p (at list i) hp in
        let two = count-set c (set list p (at list i)) i (at list p) (omega arith) in
        let moved : is_at (at (set list p (at list i)) i) c ≡ is_at (at list i) c =
          ap (λ x. is_at x c) kept in
        let goal : count c (set (set list p (at list i)) i (at list p)) ≡ count c list =
          omega (arith, moved) in
        rw other goal
  ]

  at-swapped :
      (k : ℕ)
      → ((k ≡ i) × (at (swapped p i list) k ≡ at list p))
        ⊎ (((k ≡ p) × (at (swapped p i list) k ≡ at list i))
            ⊎ ((k ≢ i) × (k ≢ p) × (at (swapped p i list) k ≡ at list k)))
  at-swapped k = elim (same_or_not p i) [
    | inl same ↦
        let yes : (p == i) ≡ true = ground arith in
        elim (same_or_not k i) [
          | inl here ↦ inl (here, rw yes (ap (at list) (here ∙ sym same)))
          | inr not_i ↦ inr (inr (not_i, λ e. not_i (e ∙ same), rw yes refl))
        ]
    | inr other ↦
        let n = length-set list p (at list i) in
        let no : (p == i) ≡ false = ground arith in
        let at_i = at-set_self (set list p (at list i)) i (at list p) (omega arith) in
        elim (same_or_not k i) [
          | inl here ↦ inl (here, rw (no, here) at_i)
          | inr not_i ↦
              let moved = at-set_ne (set list p (at list i)) i k (at list p) (λ e. not_i (sym e)) in
              elim (same_or_not k p) [
                | inl there ↦ inr (
                    inl (
                      there,
                      rw no (
                          moved
                          ∙ ap (at (set list p (at list i))) there
                          ∙ at-set_self list p (at list i) hp),
                    ))
                | inr not_p ↦ inr (
                    inr (
                      not_i,
                      not_p,
                      rw no (moved ∙ at-set_ne list p k (at list i) (λ e. not_p (sym e))),
                    ))
              ]
        ]
  ]

-- One round of the outer loop puts one element more at its place.
module _ (i len p : ℕ) (list : List ℕ) (hi : i < len) (fits : len ≤ length list)
    (found : Least (len - (i + 1)) (i + 1) i list p) where
  least-swapped : (b : ℕ) → i < b → b < len → at list p ≤ at (swapped p i list) b
  least-swapped b hb hl = elim (at-swapped p i list (omega (arith, found.0)) (omega arith) b) [
    | inl (there, now_b) ↦ absurd (omega arith)
    | inr (inl (there, now_b)) ↦ omega (arith, found.1)
    | inr (inr (not_i, not_p, now_b)) ↦ omega (arith, found.2 b (omega arith) (omega arith))
  ]

  Ordered-swapped : Ordered i len list → Ordered (i + 1) len (swapped p i list)
  Ordered-swapped before a b ha hb hl =
      let hp : p < length list = omega (arith, found.0) in
      let at_p = at-swapped p i list hp (omega arith) in
      elim (at_p a) [
        | inl (here, now_a) ↦ omega (arith, least-swapped b (omega arith) hl)
        | inr (inl (here, now_a)) ↦
            let same : i ≡ p = omega (arith, found.0) in
            omega (arith, ap (at list) same, least-swapped b (omega arith) hl)
        | inr (inr (not_i, not_p, now_a)) ↦
            let earlier : a < i = omega arith in
            elim (at_p b) [
              | inl (there, now_b) ↦
                  omega
                    (arith, before a p earlier (omega (arith, found.0)) (omega (arith, found.0)))
              | inr (inl (there, now_b)) ↦ omega (arith, before a i earlier earlier hi)
              | inr (inr (not_i', not_p', now_b)) ↦ omega (arith, before a b earlier hb hl)
            ]
      ]

sort_loop-Ordered :
    (rounds i len : ℕ) (list : List ℕ)
    → i + rounds < len
    → len ≤ length list
    → Ordered i len list
    → (length (sort_loop rounds i len list) ≡ length list)
      × Ordered (i + rounds) len (sort_loop rounds i len list)
      × ((c : ℕ) → count c (sort_loop rounds i len list) ≡ count c list)
unfolding sort_loop
sort_loop-Ordered zero i len list h fits before =
    let e : i ≡ i + 0 = omega arith in (refl, subst (λ m. Ordered m len list) e before, λ c. refl)
sort_loop-Ordered (suc rounds) i len list h fits before =
    let p = least_position (len - (i + 1)) (i + 1) i list in
    let least = least_position-Least (len - (i + 1)) (i + 1) i list in
    let hp : p < length list = omega (arith, least.0) in
    let hi : i < length list = omega arith in
    let same_len = length-swapped p i list hp hi in
    let (len', ordered, counts) =
      sort_loop-Ordered rounds (i + 1) len (swapped p i list) (omega arith) (omega arith)
        (Ordered-swapped i len p list (omega arith) fits least before) in
    let e : i + 1 + rounds ≡ i + suc rounds = omega arith in
    (
      len' ∙ same_len,
      subst (λ m. Ordered m len (sort_loop rounds (i + 1) len (swapped p i list))) e ordered,
      λ c. counts c ∙ count-swapped p i list hp hi c,
    )

-- Each number is at most what comes behind it.
abbrev pub Ascending : List ℕ → Type 0
Ascending [] = Unit
Ascending (x ∷ xs) = All (λ y. x ≤ y) xs × Ascending xs

All-at : (x : ℕ) (xs : List ℕ) → ((k : ℕ) → k < length xs → x ≤ at xs k) → All (λ y. x ≤ y) xs
All-at x [] h = tt
All-at x (y ∷ ys) h = (h 0 (omega arith), All-at x ys (λ k l. h (suc k) (omega arith)))

Ascending-at :
    (xs : List ℕ) → ((a b : ℕ) → a < b → b < length xs → at xs a ≤ at xs b) → Ascending xs
Ascending-at [] h = tt
Ascending-at (x ∷ xs) h = (
  All-at x xs (λ k l. h 0 (suc k) (omega arith) (omega arith)),
  Ascending-at xs (λ a b l m. h (suc a) (suc b) (omega arith) (omega arith)),
)

-- The sort of a list that is not empty: the numbers are in ascending order, and every number occurs
-- as often as before.
pub inplace_selection_sort-sorts :
    (len : ℕ) (list : List ℕ) (c : ℕ)
    → 0 < len
    → length list ≡ len
    → Ascending (inplace_selection_sort len list)
      × (count c (inplace_selection_sort len list) ≡ count c list)
unfolding inplace_selection_sort
inplace_selection_sort-sorts len list c p fits =
    let (len', ordered, counts) =
      sort_loop-Ordered (len - 1) 0 len list (omega arith) (omega arith)
        (λ a b h. absurd (omega arith)) in
    (
      Ascending-at (sort_loop (len - 1) 0 len list)
          (λ a b h l. ordered a b (omega arith) h (omega arith)),
      counts c,
    )

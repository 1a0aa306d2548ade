-- ===== src/Token/Registry.antt =====
-- The lookup of a token in the registry.
use Prim.{absurd}
use hathor_ledger_app.Prelude.{
  ◌∙◌, length-take, sym, ◌≢◌, subst, ℕ, zero, suc, ◌+◌, ◌≤◌, ◌<◌, ◌≡◌, refl, ap, ap₂, Bool, true,
  false, Option, none, some, List, [], ◌∷◌, take, length, get_or, if◌then◌else◌, arith, inl, inr,
  Bool-cases,
}
use hathor_ledger_app.Deserialize.{mem_eq}
use hathor_ledger_app.Token.{
  TokenSymbol, TokenData, token_uid_len, zero_symbol, find_index, find_token_registry_index,
}

pub mem_eq-true : (xs ys : List ℕ) → mem_eq xs ys ≡ true → xs ≡ ys
unfolding mem_eq
mem_eq-true [] [] e = refl
mem_eq-true [] (y ∷ ys) e = ground arith
mem_eq-true (x ∷ xs) [] e = ground arith
mem_eq-true (x ∷ xs) (y ∷ ys) e = ap₂ (◌∷◌) (ground arith) (mem_eq-true xs ys (ground arith))

-- The entry at `k` holds this uid.
abbrev pub Holds : List TokenSymbol → ℕ → List ℕ → Type 0
Holds ts k uid = take token_uid_len (get_or ts k zero_symbol).uid ≡ take token_uid_len uid

find_index_sound :
    (uid : List ℕ) (i : ℕ) (ts : List TokenSymbol) (k : ℕ)
    → find_index uid i ts ≡ some k
    → (j : ℕ) × (k ≡ i + j) × (j < length ts) × Holds ts j uid
unfolding find_index
find_index_sound uid i [] k e = absurd (ground arith)
find_index_sound uid i (t ∷ ts) k e =
    elim (Bool-cases (mem_eq (take token_uid_len uid) (take token_uid_len t.uid))) [
      | inl same ↦ (0, ground arith, omega arith, sym (mem_eq-true _ _ same))
      | inr other ↦
          let (j, at_j, inside, holds) = find_index_sound uid (i + 1) ts k (ground arith) in
          (suc j, omega arith, omega arith, holds)
    ]

mem_eq_refl : (xs : List ℕ) → mem_eq xs xs ≡ true
unfolding mem_eq
mem_eq_refl [] = refl
mem_eq_refl (x ∷ xs) = rw (mem_eq_refl xs) (ground arith)

rest-none : (b : Bool) (i : ℕ) (r : Option ℕ) → (if b then some i else r) ≡ none → r ≡ none
rest-none true i r e = ground arith
rest-none false i r e = e

find_index_complete :
    (uid : List ℕ) (i : ℕ) (ts : List TokenSymbol) (j : ℕ)
    → j < length ts
    → Holds ts j uid
    → find_index uid i ts ≢ none
unfolding find_index
find_index_complete uid i [] j h holds e = absurd (omega arith)
find_index_complete uid i (t ∷ ts) zero h holds e =
    let same : mem_eq (take token_uid_len uid) (take token_uid_len t.uid) ≡ true =
      rw holds (mem_eq_refl (take token_uid_len uid)) in
    ground arith
find_index_complete uid i (t ∷ ts) (suc j) h holds e =
    find_index_complete uid (i + 1) ts j (omega arith) holds (rest-none _ i _ e)

get_or-take :
    (n k : ℕ) (ts : List TokenSymbol)
    → k < n
    → get_or (take n ts) k zero_symbol ≡ get_or ts k zero_symbol
get_or-take zero k ts h = absurd (omega arith)
get_or-take (suc n) k [] h = refl
get_or-take (suc n) zero (t ∷ ts) h = refl
get_or-take (suc n) (suc k) (t ∷ ts) h = get_or-take n k ts (omega arith)

-- The index that the lookup gives lies among the entries in use, and the entry there has the uid.
pub find_token_registry_index_sound :
    (registry : TokenData) (uid : List ℕ) (k : ℕ)
    → find_token_registry_index registry uid ≡ some k
    → (k < registry.len) × Holds registry.tokens k uid
unfolding find_token_registry_index
find_token_registry_index_sound registry uid k e =
    let (j, at_j, inside, holds) = find_index_sound uid 0 (take registry.len registry.tokens) k e in
    let same : k ≡ j = omega arith in
    let bound : j < registry.len = omega (arith, length-take registry.len registry.tokens) in
    (
      omega arith,
      subst (λ i. Holds registry.tokens i uid) (sym same)
          (ap (λ (t : TokenSymbol). take token_uid_len t.uid)
              (sym (get_or-take registry.len j registry.tokens bound))
            ∙ holds),
    )

-- A token whose uid one of the entries in use has is found, where the entries in use are all there.
pub find_token_registry_index_complete :
    (registry : TokenData) (uid : List ℕ) (k : ℕ)
    → k < registry.len
    → registry.len ≤ length registry.tokens
    → Holds registry.tokens k uid
    → find_token_registry_index registry uid ≢ none
unfolding find_token_registry_index
find_token_registry_index_complete registry uid k inside valid holds =
    find_index_complete uid 0 (take registry.len registry.tokens) k
      (omega (arith, length-take registry.len registry.tokens))
      (ap (λ (t : TokenSymbol). take token_uid_len t.uid)
          (get_or-take registry.len k registry.tokens inside)
        ∙ holds)

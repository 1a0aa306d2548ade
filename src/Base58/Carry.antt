-- ===== src/Base58/Carry.antt =====
-- The inner loop of `base58_encode`: multiplies the number in the buffer by 256 and adds a byte.
use native.Mathlib.Nat.{pow-suc}
use Prim.{absurd}
use hathor_ledger_app.Prelude.{
  same_or_not, ℕ, zero, suc, ◌+◌, ◌-◌, ◌*◌, ◌/◌, ◌%◌, ◌^◌, ◌≤◌, ◌<◌, ◌≡◌, sym, ap, ◌∙◌, true, false,
  ◌&&◌, List, set, length, length-set, leb, ◌==◌, arith, Bool-cases, inl, inr,
}
use hathor_ledger_app.Bytes.{at}
use hathor_ledger_app.Buffer.{sub_size}
use hathor_ledger_app.Bytes.RoundTrip.{at-set_self, at-set_ne}
use hathor_ledger_app.Base58.{carry_loop}
use hathor_ledger_app.Base58.Value.{prefix, prefix-set, prefix-zeros}

abbrev pub Zeros : ℕ → List ℕ → Type 0
Zeros n b = (i : ℕ) → i < n → at b i ≡ 0

abbrev pub Digits : List ℕ → Type 0
Digits b = (i : ℕ) → at b i < 58

Digits-set : (b : List ℕ) (j v : ℕ) → v < 58 → j < length b → Digits b → Digits (set b j v)
Digits-set b j v h fits d i = elim (same_or_not i j) [
  | inl same ↦ omega (arith, ap (at (set b j v)) same, at-set_self b j v fits)
  | inr other ↦ omega (arith, at-set_ne b j i v (λ e. other (sym e)), d i)
]

-- What the loop does from index `j` on: `low` is the last index it may stop at.
abbrev pub Carried : ℕ → ℕ → ℕ → List ℕ → List ℕ × ℕ → Type 0
Carried low j carry b (b', r) =
    (low ≤ r)
    × (r < j)
    × (length b' ≡ length b)
    × (prefix j b' ≡ prefix j b * 256 + carry)
    × ((i : ℕ) → j ≤ i → at b' i ≡ at b i)
    × Zeros r b'
    × Digits b'

one_less : (stop : ℕ) → 1 ≤ stop → stop < 2 ^ 32 → sub_size stop 1 ≡ stop - 1
one_less stop h l = omega arith

stops :
    (stop j q : ℕ)
    → 1 ≤ stop
    → stop < 2 ^ 32
    → (leb j (sub_size stop 1) && q == 0) ≡ true
    → (j < stop) × (q ≡ 0)
stops stop j q h l e = ground (arith, one_less stop h l)

goes :
    (stop j q : ℕ)
    → 1 ≤ stop
    → stop < 2 ^ 32
    → (leb j (sub_size stop 1) && q == 0) ≡ false
    → j < stop
    → 0 < q
goes stop j q h l e lt = ground (arith, one_less stop h l)

-- A number that is not 0 needs a digit more.
more_left :
    (low e j q stop : ℕ)
    → j ≡ low + e
    → low < stop
    → stop < 2 ^ 32
    → (leb j (sub_size stop 1) && q == 0) ≡ false
    → q < 58 ^ e
    → 0 < e
more_left low zero j q stop split hl hs more small =
    absurd (omega (arith, goes stop j q (omega arith) hs more (omega arith)))
more_left low (suc e) j q stop split hl hs more small = omega arith

pub carry_loop-Carried :
    (low e j carry stop : ℕ) (b : List ℕ)
    → j ≡ low + e
    → 0 < e
    → low < stop
    → stop < 2 ^ 32
    → j ≤ length b
    → prefix j b * 256 + carry < 58 ^ e
    → ((i : ℕ) → i < stop → i < j → at b i ≡ 0)
    → Digits b
    → Carried low j carry b (carry_loop j carry stop b)
unfolding carry_loop
carry_loop-Carried low e zero carry stop b split p hl hs fits small z d = absurd (omega arith)
carry_loop-Carried low zero (suc j) carry stop b split p hl hs fits small z d = absurd (omega arith)
carry_loop-Carried low (suc e) (suc j) carry stop b split p hl hs fits small z d =
    let sum = carry + 256 * at b j in
    let next = set b j (sum % 58) in
    let n = length-set b j (sum % 58) in
    let written = at-set_self b j (sum % 58) (omega arith) in
    let low_part = prefix-set j j (sum % 58) b (omega arith) in
    let small' : prefix j next * 256 + sum / 58 < 58 ^ e = omega (arith, pow-suc 58 e) in
    let digits = Digits-set b j (sum % 58) (omega arith) (omega arith) d in
    elim (Bool-cases (leb j (sub_size stop 1) && sum / 58 == 0)) [
      | inl done ↦
          let (before, no_carry) = stops stop j (sum / 58) (omega arith) hs done in
          let empty = prefix-zeros j b (λ i l. z i (omega arith) (omega arith)) in
          rw done (
            omega arith,
            omega arith,
            n,
            omega arith,
            λ i h. at-set_ne b j i (sum % 58) (omega arith),
            λ i h. at-set_ne b j i (sum % 58) (omega arith) ∙ z i (omega arith) (omega arith),
            digits,
          )
      | inr more ↦
          let left : 0 < e =
            more_left low e j (sum / 58) stop (omega arith) hl hs more (omega arith) in
          let (after, before, length', value, kept, zeros, digits') =
            carry_loop-Carried low e j (sum / 58) stop next (omega arith) left hl hs
              (omega (arith, n)) small'
              (λ i l k. at-set_ne b j i (sum % 58) (omega arith) ∙ z i l (omega arith)) digits in
          let here = kept j (omega arith) in
          rw more (
            after,
            omega arith,
            length' ∙ n,
            omega arith,
            λ i h. kept i (omega arith) ∙ at-set_ne b j i (sum % 58) (omega arith),
            zeros,
            digits',
          )
    ]

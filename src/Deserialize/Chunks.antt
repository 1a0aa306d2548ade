-- ===== src/Deserialize/Chunks.antt =====
-- What `parse_output` decides does not depend on where the host cuts the transaction into chunks.
use Prim.{absurd}
use hathor_ledger_app.Prelude.{
  ℕ, zero, suc, ◌+◌, ◌-◌, ◌%◌, ◌^◌, ◌≤◌, ◌<◌, ◌≡◌, ◌≢◌, refl, sym, ap, ◌∙◌, bit_and, false, not,
  List, [], ◌∷◌, ◌++◌, take, drop, length, length-append, ltb, ◌==◌, if◌then◌else◌, arith,
  Bool-cases, inl, inr, subst, ◌⊎◌,
}
use hathor_ledger_app.Bytes.{at, read_u16_be, read_u32_be, read_u64_be}
use hathor_ledger_app.Result.{Result, ok, throw, sw_tx_parsing_fail, tx_state_ready}
use hathor_ledger_app.Deserialize.{TxOutput, parse_output, pubkey_hash_len}
use hathor_ledger_app.Deserialize.Layout.{is_p2pkh, layout, marked_layout, plain_layout}

pub at-append : (xs more : List ℕ) (i : ℕ) → i < length xs → at (xs ++ more) i ≡ at xs i
at-append [] more i h = absurd (omega arith)
at-append (x ∷ xs) more zero h = refl
at-append (x ∷ xs) more (suc i) h = at-append xs more i (omega arith)

pub take-append_more : (k : ℕ) (xs more : List ℕ) → k ≤ length xs → take k (xs ++ more) ≡ take k xs
take-append_more zero xs more h = refl
take-append_more (suc k) [] more h = absurd (omega arith)
take-append_more (suc k) (x ∷ xs) more h =
    ap (λ l. x ∷ l) (take-append_more k xs more (omega arith))

take-drop-append :
    (k o : ℕ) (xs more : List ℕ)
    → o + k ≤ length xs
    → take k (drop o (xs ++ more)) ≡ take k (drop o xs)
take-drop-append k zero xs more h = take-append_more k xs more (omega arith)
take-drop-append k (suc o) [] more h = absurd (omega arith)
take-drop-append k (suc o) (x ∷ xs) more h = take-drop-append k o xs more (omega arith)

abbrev Outcome : Type 0
Outcome = Result (TxOutput × ℕ)

abbrev gate : ℕ → ℕ → Outcome → Outcome
gate n k r = if ltb n k then throw tx_state_ready else r

-- The decision does not wait for bytes that are still to come.
abbrev Settled : ℕ → ℕ → Outcome → Type 0
Settled n n' r = (n' ≡ n) ⊎ (r ≢ throw tx_state_ready)

settle : (n n' : ℕ) (r r' : Outcome) → r ≡ r' → Settled n n' r → Settled n n' r'
settle n n' r r' e settled = subst (Settled n n') e settled

gate_stable :
    (n n' k : ℕ) (r r' : Outcome)
    → n ≤ n'
    → (k ≤ n → Settled n n' r → r' ≡ r)
    → Settled n n' (gate n k r)
    → gate n' k r' ≡ gate n k r
gate_stable n n' k r r' le same settled = elim (Bool-cases (ltb n k)) [
  | inl short ↦ elim settled [
    | inl e ↦ rw (e, short) refl
    | inr decided ↦ absurd (decided (rw short refl))
  ]
  | inr long ↦
      let long' : ltb n' k ≡ false = ground arith in
      rw (long, long') (same (ground arith) (settle n n' (gate n k r) r (rw long refl) settled))
]

module _ (xs more : List ℕ) where
  abbrev all : List ℕ
  all = xs ++ more

  u16_same : (o : ℕ) → o + 2 ≤ length xs → read_u16_be all o ≡ read_u16_be xs o
  unfolding read_u16_be
  u16_same o h =
      rw (at-append xs more (o + 0) (omega arith), at-append xs more (o + 1) (omega arith)) refl

  u32_same : 4 ≤ length xs → read_u32_be all 0 ≡ read_u32_be xs 0
  unfolding read_u32_be
  u32_same h =
      rw
        (
          at-append xs more 0 (omega arith),
          at-append xs more 1 (omega arith),
          at-append xs more 2 (omega arith),
          at-append xs more 3 (omega arith),
        )
        refl

  u64_same : 8 ≤ length xs → read_u64_be all 0 ≡ read_u64_be xs 0
  unfolding read_u64_be
  u64_same h =
      rw
        (
          at-append xs more 0 (omega arith),
          at-append xs more 1 (omega arith),
          at-append xs more 2 (omega arith),
          at-append xs more 3 (omega arith),
          at-append xs more 4 (omega arith),
          at-append xs more 5 (omega arith),
          at-append xs more 6 (omega arith),
          at-append xs more 7 (omega arith),
        )
        refl

  abbrev script_part : List ℕ → ℕ → ℕ → Outcome
  script_part input w value =
      if not (is_p2pkh input (w + 3))
      then throw sw_tx_parsing_fail
      else ok (
        record {
          index = 0;
          value = value;
          token_data = at input w;
          pubkey_hash = take pubkey_hash_len (drop (w + 3 + 3) input);
        },
        w + 28,
      )

  script_same :
      (w value : ℕ) → w + 28 ≤ length xs → script_part all w value ≡ script_part xs w value
  script_same w value h =
      rw
        (
          take-drop-append 3 (w + 3) xs more (omega arith),
          take-drop-append 2 (w + 3 + 20 + 3) xs more (omega arith),
          take-drop-append 20 (w + 3 + 3) xs more (omega arith),
          at-append xs more w (omega arith),
        )
        refl

  layout_stable :
      (w value n' : ℕ)
      → length xs ≤ n'
      → Settled (length xs) n' (layout xs (length xs) w value)
      → layout all n' w value ≡ layout xs (length xs) w value
  layout_stable w value n' le =
      let n = length xs in
      let tail = λ (input : List ℕ) (m : ℕ). gate m (w + 28) (script_part input w value) in
      gate_stable n n' (w + 3)
        (if not (read_u16_be xs (w + 1) == 25) then throw sw_tx_parsing_fail else tail xs n)
        (if not (read_u16_be all (w + 1) == 25) then throw sw_tx_parsing_fail else tail all n') le
        (λ here settled.
          rw (u16_same (w + 1) (omega arith))
            (elim (Bool-cases (not (read_u16_be xs (w + 1) == 25))) [
              | inl wrong ↦ rw wrong refl
              | inr right ↦ rw right (
                  gate_stable n n' (w + 28) (script_part xs w value) (script_part all w value) le
                    (λ inside _. script_same w value inside)
                    (settle n n' _ (tail xs n) (rw right refl) settled))
            ]))

  module _ (n' : ℕ) (le : length xs ≤ n') (small : n' < 2 ^ 32) (some_bytes : 0 < length xs) where
    first : (bit_and (at all 0) 0x80 == 0) ≡ (bit_and (at xs 0) 0x80 == 0)
    first = ap (λ c. bit_and c 0x80 == 0) (at-append xs more 0 some_bytes)

    more_bytes :
        Settled (length xs) n' (parse_output xs (length xs))
        → parse_output all n' ≡ parse_output xs (length xs)
    more_bytes settled = elim (Bool-cases (not (bit_and (at xs 0) 0x80 == 0))) [
      | inl marked ↦
          let value = (2 ^ 64 - read_u64_be xs 0) % 2 ^ 64 in
          let value' = (2 ^ 64 - read_u64_be all 0) % 2 ^ 64 in
          let before = marked_layout xs (length xs) (omega arith) marked in
          let after = marked_layout all n' small (ap not first ∙ marked) in
          after
          ∙ gate_stable (length xs) n' 8 (layout xs (length xs) 8 value) (layout all n' 8 value') le
              (λ fits d.
                ap (λ r. layout all n' 8 ((2 ^ 64 - r) % 2 ^ 64)) (u64_same fits)
                ∙ layout_stable 8 value n' le d)
              (settle (length xs) n' _ _ before settled)
          ∙ sym before
      | inr plain ↦
          let before = plain_layout xs (length xs) (omega arith) plain in
          let after = plain_layout all n' small (ap not first ∙ plain) in
          after
          ∙ gate_stable (length xs) n' 4 (layout xs (length xs) 4 (read_u32_be xs 0))
              (layout all n' 4 (read_u32_be all 0)) le
              (λ fits d.
                ap (layout all n' 4) (u32_same fits) ∙ layout_stable 4 (read_u32_be xs 0) n' le d)
              (settle (length xs) n' _ _ before settled)
          ∙ sym before
    ]

nothing : (junk : List ℕ) → parse_output junk 0 ≡ throw tx_state_ready
nothing junk = elim (Bool-cases (not (bit_and (at junk 0) 0x80 == 0))) [
  | inl marked ↦ marked_layout junk 0 (omega arith) marked
  | inr plain ↦ plain_layout junk 0 (omega arith) plain
]

-- What lies behind the bytes is not looked at.
pub parse_output-behind :
    (xs junk : List ℕ)
    → length xs < 2 ^ 32
    → parse_output (xs ++ junk) (length xs) ≡ parse_output xs (length xs)
parse_output-behind [] junk small = nothing junk ∙ sym (nothing [])
parse_output-behind (x ∷ xs) junk small =
    more_bytes (x ∷ xs) junk (length (x ∷ xs)) (omega arith) small (omega arith) (inl refl)

-- What `parse_output` decides about the bytes that are there, an output or an error, it still
-- decides when more bytes follow, fewer than 2 ^ 32 in all: the cuts between the chunks do not
-- matter.
pub parse_output-append :
    (xs more : List ℕ)
    → length (xs ++ more) < 2 ^ 32
    → parse_output xs (length xs) ≢ throw tx_state_ready
    → parse_output (xs ++ more) (length (xs ++ more)) ≡ parse_output xs (length xs)
parse_output-append [] more small decided = absurd (decided (nothing []))
parse_output-append (x ∷ xs) more small decided =
    more_bytes (x ∷ xs) more (length ((x ∷ xs) ++ more))
      (omega (arith, length-append (x ∷ xs) more)) small (omega arith) (inr decided)

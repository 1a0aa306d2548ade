-- ===== src/SignTx/Stream/Output.antt =====
-- An output of the stream, and with it every element.
use Prim.{absurd}
use hathor_ledger_app.Prelude.{
  ℕ, ◌+◌, ◌%◌, ◌^◌, ◌≤◌, ◌<◌, ◌≡◌, ◌≢◌, refl, sym, ap, ◌∙◌, bit_and, Bool, true, false, not, List,
  [], ◌∷◌, ◌++◌, take, length, ltb, leb, ◌==◌, set, arith, inl, inr, Bool-cases, same_or_not,
}
use hathor_ledger_app.Result.{Result, ok, throw, fault, tx_state_err, tx_state_ready}
use hathor_ledger_app.Deserialize.{TxOutput, parse_output}
use hathor_ledger_app.Deserialize.Accept.{parse_output-Accepted}
use hathor_ledger_app.Deserialize.Chunks.{parse_output-behind, parse_output-append}
use hathor_ledger_app.Sdk.{Sdk}
use hathor_ledger_app.Token.{TokenData}
use hathor_ledger_app.App.{TxInfo, ChangeOutputInfo, outputs_cap}
use hathor_ledger_app.SignTx.{
  decode_element, decode_output, decode_parsed, check_output, store_output, more_data,
  token_data_authority_mask, token_data_index_mask,
}
use hathor_ledger_app.SignTx.Change.{check_change, verify_change}
use hathor_ledger_app.SignTx.Stream.{load}
use hathor_ledger_app.SignTx.Stream.Element.{
  Failure, Reads, waits, takes, fails, shift_buffer-more, token_Reads, input_Reads,
}

module _ {H : Type 0} (sdk : Sdk H) (registry : TokenData) where
  check_change-throws :
      (infos : List ChangeOutputInfo) (o : TxOutput) (e : ℕ)
      → check_change sdk infos o ≡ throw e
      → e ≢ tx_state_ready
  unfolding check_change verify_change
  check_change-throws [] o e h = absurd (ground arith)
  check_change-throws (info ∷ infos) o e h = λ same. ground (arith, check_change-throws infos o e)

  -- The next element is an output.
  pub record AtOutput (tx : TxInfo H) : Type 0 where
    pub tokens : ltb 0 tx.remaining_tokens ≡ false
    pub inputs : ltb 0 tx.remaining_inputs ≡ false
    pub outputs : ltb tx.current_output tx.outputs_len ≡ true

  module _ (tx : TxInfo H) (xs : List ℕ) (here : AtOutput tx) where
    pub parsed_element :
        (ys junk : List ℕ) (p : Result (TxOutput × ℕ))
        → length ys < 2 ^ 32
        → parse_output ys (length ys) ≡ p
        → decode_element sdk registry (load tx ys junk) ≡ decode_parsed sdk p (load tx ys junk)
    unfolding decode_element decode_output
    parsed_element ys junk p small' e =
        rw (here.tokens, here.inputs, here.outputs)
          (ap (λ q. decode_parsed sdk q (load tx ys junk)) (parse_output-behind ys junk small' ∙ e))

    decided_element :
        (p : Result (TxOutput × ℕ))
        → parse_output xs (length xs) ≡ p
        → p ≢ throw tx_state_ready
        → (more junk : List ℕ) → length (xs ++ more) < 2 ^ 32
        → decode_element sdk registry (load tx (xs ++ more) junk)
          ≡ decode_parsed sdk p (load tx (xs ++ more) junk)
    decided_element p e decided more junk small' =
        parsed_element (xs ++ more) junk p small'
          (parse_output-append xs more small' (λ h. decided (sym e ∙ h)) ∙ e)

    wrong_output :
        (p : Result (TxOutput × ℕ)) (r : Result Bool)
        → parse_output xs (length xs) ≡ p
        → p ≢ throw tx_state_ready
        → Failure r
        → ((ys junk : List ℕ) → (decode_parsed sdk p (load tx ys junk)).0 ≡ r)
        → Reads sdk registry tx xs
    wrong_output p r e decided failure result = fails r failure (λ more junk small.
        ap (λ q. q.0) (decided_element p e decided more junk small) ∙ result (xs ++ more) junk)

    module _ (p : TxOutput) (len : ℕ) (e : parse_output xs (length xs) ≡ ok (p, len)) where
      decided : ◌≢◌ {A = Result (TxOutput × ℕ)} (ok (p, len)) (throw tx_state_ready)
      decided h = ground arith

      -- The output's place in the transaction.
      numbered : TxOutput
      numbered = record p { index = tx.current_output }

      bad_output :
          (r : Result Bool)
          → Failure r
          → ((ys junk : List ℕ) → (check_output sdk (load tx ys junk) p len).0 ≡ r)
          → Reads sdk registry tx xs
      unfolding decode_parsed
      bad_output r failure result = wrong_output (ok (p, len)) r e decided failure result

      module _ (some_bytes : 0 < len) (inside : len ≤ length xs) where
        -- An output that has passed the tests of its token.
        known_output :
            not (bit_and p.token_data token_data_authority_mask == 0) ≡ false
            → ltb tx.tokens_len (bit_and p.token_data token_data_index_mask) ≡ false
            → (changed : Result (Unit {0}))
            → check_change sdk (take tx.change_len tx.change_info) numbered ≡ changed
            → Reads sdk registry tx xs
        unfolding check_output store_output numbered decode_parsed
        known_output plain known (throw x) verdict =
            bad_output (throw x) (check_change-throws _ numbered x verdict)
              (λ ys junk. rw (plain, known, verdict) refl)
        known_output plain known fault verdict =
            bad_output fault tt (λ ys junk. rw (plain, known, verdict) refl)
        known_output plain known (ok _) verdict =
            elim (Bool-cases (leb outputs_cap tx.buffer_output_len)) [
              | inl full ↦
                  bad_output (throw tx_state_err) (λ h. ground arith)
                    (λ ys junk. rw (plain, known, verdict, full) refl)
              | inr room ↦
                  let tx' = record tx {
                    current_output = (tx.current_output + 1) % 256;
                    outputs = set tx.outputs tx.buffer_output_len numbered;
                    buffer_output_len = (tx.buffer_output_len + 1) % 256;
                  } in
                  takes tx' len some_bytes inside (λ more junk small.
                    decided_element (ok (p, len)) e decided more junk small
                    ∙ rw (plain, known, verdict, room)
                        (ap more_data (shift_buffer-more tx' len xs more junk inside)))
            ]

        kept_output : Reads sdk registry tx xs
        unfolding check_output
        kept_output =
            elim (Bool-cases (not (bit_and p.token_data token_data_authority_mask == 0))) [
              | inl authority ↦
                  bad_output (throw tx_state_err) (λ h. ground arith) (λ ys junk. rw authority refl)
              | inr plain ↦
                  elim (Bool-cases
                    (ltb tx.tokens_len (bit_and p.token_data token_data_index_mask))) [
                      | inl unknown ↦
                          bad_output (throw tx_state_err) (λ h. ground arith)
                            (λ ys junk. rw (plain, unknown) refl)
                      | inr known ↦ known_output plain known _ refl
                    ]
            ]

    output_Reads :
        length xs < 2 ^ 32
        → (p : Result (TxOutput × ℕ)) → parse_output xs (length xs) ≡ p
        → Reads sdk registry tx xs
    unfolding decode_parsed
    output_Reads small (ok (p, len)) e =
        let accepted = parse_output-Accepted xs (length xs) p len small e in
        kept_output p len e (ground (arith, accepted.end)) accepted.inside
    output_Reads small fault e = wrong_output fault fault e (λ h. ground arith) tt (λ ys junk. refl)
    output_Reads small (throw x) e = elim (same_or_not x tx_state_ready) [
      | inl ready ↦ waits (λ junk. parsed_element xs junk (throw x) small e ∙ rw ready refl)
      | inr other ↦
          wrong_output (throw x) (throw x) e (λ h. other (ground arith)) other (λ ys junk. refl)
    ]

  -- Every element.
  pub element_Reads : (tx : TxInfo H) (xs : List ℕ) → length xs < 2 ^ 32 → Reads sdk registry tx xs
  unfolding decode_element
  element_Reads tx xs small = elim (Bool-cases (ltb 0 tx.remaining_tokens)) [
    | inl t ↦ token_Reads sdk registry tx xs t
    | inr t ↦ elim (Bool-cases (ltb 0 tx.remaining_inputs)) [
      | inl i ↦ input_Reads sdk registry tx xs t i
      | inr i ↦ elim (Bool-cases (ltb tx.current_output tx.outputs_len)) [
        | inl o ↦ output_Reads tx xs (record { tokens = t; inputs = i; outputs = o }) small _ refl
        | inr o ↦
            fails (throw tx_state_err) (λ h. ground arith) (λ more junk small'. rw (t, i, o) refl)
      ]
    ]
  ]

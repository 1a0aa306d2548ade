-- ===== src/SignTx/Progress.antt =====
-- The decoder terminates: every element takes bytes off the buffer.
use Prim.{absurd}
use hathor_ledger_app.Prelude.{
  ℕ, zero, suc, ◌^◌, ◌<◌, ◌≡◌, ◌≢◌, refl, Bool, true, false, Option, none, some, arith,
}
use hathor_ledger_app.Result.{Result, ok, throw, fault}
use hathor_ledger_app.Deserialize.{TxOutput, parse_output}
use hathor_ledger_app.Deserialize.Accept.{parse_output-Accepted}
use hathor_ledger_app.Sdk.{Sdk}
use hathor_ledger_app.Token.{TokenData}
use hathor_ledger_app.App.{TxInfo}
use hathor_ledger_app.SignTx.{
  decode_token, decode_input, store_output, check_output, decode_parsed, decode_output,
  decode_element, decode_loop, decode_elements, catch_all,
}

module _ {H : Type 0} where
  -- The step goes on only with fewer bytes in the buffer.
  unfoldable pub Shrinks : Result Bool × TxInfo H → TxInfo H → Type 0
  Shrinks r tx = r.0 ≡ ok true → r.1.buffer_len < tx.buffer_len

  decode_token-Shrinks :
      (registry : TokenData) (tx : TxInfo H) → Shrinks (decode_token registry tx) tx
  unfolding decode_token Shrinks
  decode_token-Shrinks registry tx h = ground arith

  decode_input-Shrinks : (tx : TxInfo H) → Shrinks (decode_input tx) tx
  unfolding decode_input Shrinks
  decode_input-Shrinks tx h = ground arith

  store_output-Shrinks :
      (tx : TxInfo H) (o : TxOutput) (len : ℕ) → 0 < len → Shrinks (store_output tx o len) tx
  unfolding store_output Shrinks
  store_output-Shrinks tx o len p h = ground arith

  module _ (sdk : Sdk H) where
    check_output-Shrinks :
        (tx : TxInfo H) (o : TxOutput) (len : ℕ) → 0 < len → Shrinks (check_output sdk tx o len) tx
    unfolding check_output store_output Shrinks
    check_output-Shrinks tx o len p h = ground arith

    decode_parsed-Shrinks :
        (p : Result (TxOutput × ℕ)) (tx : TxInfo H)
        → tx.buffer_len < 2 ^ 32
        → parse_output tx.buffer tx.buffer_len ≡ p
        → Shrinks (decode_parsed sdk p tx) tx
    unfolding decode_parsed
    decode_parsed-Shrinks (ok (o, len)) tx small e =
        let accepted = parse_output-Accepted tx.buffer tx.buffer_len o len small e in
        check_output-Shrinks tx o len (ground (arith, accepted.end))
    decode_parsed-Shrinks (throw x) tx small e = unfold Shrinks in λ h. ground arith
    decode_parsed-Shrinks fault tx small e = unfold Shrinks in λ h. ground arith

    decode_output-Shrinks :
        (tx : TxInfo H) → tx.buffer_len < 2 ^ 32 → Shrinks (decode_output sdk tx) tx
    unfolding decode_output
    decode_output-Shrinks tx small = decode_parsed-Shrinks _ tx small refl

    decode_element-Shrinks :
        (registry : TokenData) (tx : TxInfo H)
        → tx.buffer_len < 2 ^ 32
        → Shrinks (decode_element sdk registry tx) tx
    unfolding decode_element Shrinks
    decode_element-Shrinks registry tx small h = ground (
      arith,
      decode_token-Shrinks registry tx,
      decode_input-Shrinks tx,
      decode_output-Shrinks tx small,
    )

    -- One round of the loop, where the rest of it returns.
    round-returns :
        (fuel : ℕ) (registry : TokenData) (tx : TxInfo H) (r : Result Bool)
        → (decode_element sdk registry tx).0 ≡ r
        → (r ≡ ok true → decode_loop sdk fuel registry (decode_element sdk registry tx).1 ≢ none)
        → decode_loop sdk (suc fuel) registry tx ≢ none
    unfolding decode_loop
    round-returns fuel registry tx (ok true) e rest = rw (e, decode_loop) (rest refl)
    round-returns fuel registry tx (ok false) e rest = rw (e, decode_loop) (λ h. ground arith)
    round-returns fuel registry tx (throw x) e rest = rw (e, decode_loop) (λ h. ground arith)
    round-returns fuel registry tx fault e rest = rw (e, decode_loop) (λ h. ground arith)

    loop-returns :
        (fuel : ℕ) (registry : TokenData) (tx : TxInfo H)
        → tx.buffer_len < 2 ^ 32
        → tx.buffer_len < fuel
        → decode_loop sdk fuel registry tx ≢ none
    unfolding Shrinks
    loop-returns zero registry tx small enough = elim enough [ ]
    loop-returns (suc fuel) registry tx small enough = round-returns fuel registry tx _ refl λ more.
        let less = decode_element-Shrinks registry tx small more in
        loop-returns fuel registry (decode_element sdk registry tx).1 (omega arith) (omega arith)

    caught-returns : (o : Option (Result (Unit {0}) × TxInfo H)) → o ≢ none → catch_all sdk o ≢ none
    unfolding catch_all
    caught-returns none h = absurd (h refl)
    caught-returns (some r) h = λ e. ground arith

    -- The decoder returns, whatever the bytes in its buffer are, as long as they are fewer than 2 ^
    -- 32: its `while` loop ends after at most as many rounds as the buffer holds bytes, and one
    -- more.
    pub decode_elements-returns :
        (registry : TokenData) (tx : TxInfo H)
        → tx.buffer_len < 2 ^ 32
        → decode_elements sdk registry tx ≢ none
    unfolding decode_elements
    decode_elements-returns registry tx small =
        caught-returns _ (loop-returns (suc tx.buffer_len) registry tx small (omega arith))

-- ===== src/SignTx/Frame.antt =====
-- What the decoder leaves alone: the index of the output that the screens are at, and the bytes that
-- wait, which it only takes away.
use Prim.{absurd}
use hathor_ledger_app.Prelude.{
  subst, ℕ, zero, suc, ◌≤◌, ◌≡◌, ◌∙◌, refl, Bool, true, false, Option, none, some, ltb, arith, inl,
  inr, Bool-cases,
}
use hathor_ledger_app.Result.{Result, ok, throw, fault}
use hathor_ledger_app.Deserialize.{TxOutput}
use hathor_ledger_app.Sdk.{Sdk}
use hathor_ledger_app.Token.{TokenData}
use hathor_ledger_app.App.{TxInfo}
use hathor_ledger_app.SignTx.{
  decode_token, decode_input, store_output, check_output, decode_parsed, decode_output,
  decode_element, decode_loop, decode_elements, catch_all,
}

module _ {H : Type 0} where
  -- No byte more waits, and the screens are at the same output.
  pub record IsLess (tx tx' : TxInfo H) : Type 0 where
    pub buffer_len : tx'.buffer_len ≤ tx.buffer_len
    pub display_index : tx'.display_index ≡ tx.display_index

  IsLess-refl : (tx : TxInfo H) → IsLess tx tx
  IsLess-refl tx = record { buffer_len = omega arith; display_index = refl }

  IsLess-trans : (a b c : TxInfo H) → IsLess a b → IsLess b c → IsLess a c
  IsLess-trans a b c p q = record {
    buffer_len = omega (arith, p.buffer_len, q.buffer_len);
    display_index = q.display_index ∙ p.display_index;
  }

  LessAfter : {R : Type 0} → TxInfo H → Option (R × TxInfo H) → Type 0
  LessAfter tx none = Unit
  LessAfter tx (some (r, tx')) = IsLess tx tx'

  token-IsLess : (registry : TokenData) (tx : TxInfo H) → IsLess tx (decode_token registry tx).1
  unfolding decode_token
  token-IsLess registry tx = record { buffer_len = ground arith; display_index = ground arith }

  input-IsLess : (tx : TxInfo H) → IsLess tx (decode_input tx).1
  unfolding decode_input
  input-IsLess tx = record { buffer_len = ground arith; display_index = ground arith }

  module _ (sdk : Sdk H) where
    checked-IsLess :
        (tx : TxInfo H) (o : TxOutput) (len : ℕ) → IsLess tx (check_output sdk tx o len).1
    unfolding check_output store_output
    checked-IsLess tx o len = record { buffer_len = ground arith; display_index = ground arith }

    parsed-IsLess :
        (p : Result (TxOutput × ℕ)) (tx : TxInfo H) → IsLess tx (decode_parsed sdk p tx).1
    unfolding decode_parsed
    parsed-IsLess (ok (o, len)) tx = checked-IsLess tx o len
    parsed-IsLess (throw x) tx = IsLess-refl tx
    parsed-IsLess fault tx = IsLess-refl tx

    element-IsLess :
        (registry : TokenData) (tx : TxInfo H) → IsLess tx (decode_element sdk registry tx).1
    unfolding decode_element decode_output
    element-IsLess registry tx = elim (Bool-cases (ltb 0 tx.remaining_tokens)) [
      | inl t ↦ rw t (token-IsLess registry tx)
      | inr t ↦ rw t (elim (Bool-cases (ltb 0 tx.remaining_inputs)) [
        | inl i ↦ rw i (input-IsLess tx)
        | inr i ↦ rw i (elim (Bool-cases (ltb tx.current_output tx.outputs_len)) [
          | inl o ↦ rw o (parsed-IsLess _ tx)
          | inr o ↦ rw o (IsLess-refl tx)
        ])
      ])
    ]

    later :
        (a b : TxInfo H) (o : Option (Result (Unit {0}) × TxInfo H))
        → IsLess a b
        → LessAfter b o
        → LessAfter a o
    unfolding LessAfter
    later a b none p q = tt
    later a b (some (r, c)) p q = IsLess-trans a b c p q

    round-IsLess :
        (fuel : ℕ) (registry : TokenData) (tx : TxInfo H) (r : Result Bool)
        → (decode_element sdk registry tx).0 ≡ r
        → LessAfter
            (decode_element sdk registry tx).1
            (decode_loop sdk fuel registry (decode_element sdk registry tx).1)
        → LessAfter tx (decode_loop sdk (suc fuel) registry tx)
    unfolding decode_loop LessAfter
    round-IsLess fuel registry tx (ok true) e rest =
        rw (e, decode_loop) (later tx _ _ (element-IsLess registry tx) rest)
    round-IsLess fuel registry tx (ok false) e rest =
        rw (e, decode_loop) (element-IsLess registry tx)
    round-IsLess fuel registry tx (throw x) e rest =
        rw (e, decode_loop) (element-IsLess registry tx)
    round-IsLess fuel registry tx fault e rest = rw (e, decode_loop) (element-IsLess registry tx)

    loop-IsLess :
        (fuel : ℕ) (registry : TokenData) (tx : TxInfo H)
        → LessAfter tx (decode_loop sdk fuel registry tx)
    unfolding decode_loop LessAfter
    loop-IsLess zero registry tx = tt
    loop-IsLess (suc fuel) registry tx =
        round-IsLess fuel registry tx _ refl
          (loop-IsLess fuel registry (decode_element sdk registry tx).1)

    caught-IsLess :
        (tx : TxInfo H) (o : Option (Result (Unit {0}) × TxInfo H)) (r : Result ℕ) (tx' : TxInfo H)
        → LessAfter tx o
        → catch_all sdk o ≡ some (r, tx')
        → IsLess tx tx'
    unfolding catch_all LessAfter
    caught-IsLess tx none r tx' v e = absurd (ground arith)
    caught-IsLess tx (some (q, tx1)) r tx' v e = subst (LessAfter tx) e v

    pub decode_elements-IsLess :
        (registry : TokenData) (tx tx' : TxInfo H) (r : Result ℕ)
        → decode_elements sdk registry tx ≡ some (r, tx')
        → IsLess tx tx'
    unfolding decode_elements
    decode_elements-IsLess registry tx tx' r e =
        caught-IsLess tx _ r tx' (loop-IsLess (suc tx.buffer_len) registry tx) e

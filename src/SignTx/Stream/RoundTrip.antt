-- ===== src/SignTx/Stream/RoundTrip.antt =====
-- Outputs in the wire format are decoded to these outputs.
use Prim.{absurd}
use hathor_ledger_app.Prelude.{
  ℕ, zero, suc, ◌+◌, ◌^◌, ◌≤◌, ◌<◌, ◌≡◌, refl, ap, ap₂, ◌∙◌, bit_and, false, some, List, [], ◌∷◌,
  ◌++◌, take, drop, length, ◌==◌, All, arith,
}
use hathor_ledger_app.Result.{ok, tx_state_ready}
use hathor_ledger_app.Deserialize.{TxOutput}
use hathor_ledger_app.Deserialize.RoundTrip.{Width, encode, Encodable}
use hathor_ledger_app.Sdk.{Sdk}
use hathor_ledger_app.Token.{TokenData}
use hathor_ledger_app.App.{TxInfo, outputs_cap}
use hathor_ledger_app.SignTx.{decode_elements, token_data_authority_mask, token_data_index_mask}
use hathor_ledger_app.SignTx.Stream.{load, feed, settled}
use hathor_ledger_app.SignTx.Stream.Encode.{stored, Payable, one_output, length-encode}
use hathor_ledger_app.SignTx.Stream.Loop.{round, round-after, going_on, drained_settled}

-- The outputs, each with the width of its value.
abbrev pub Outputs : Type 0
Outputs = List (Width × TxOutput)

abbrev pub encode_all : Outputs → List ℕ
encode_all [] = []
encode_all ((w, o) ∷ os) = encode w o (encode_all os)

module _ {H : Type 0} where
  abbrev pub stored_all : TxInfo H → Outputs → TxInfo H
  stored_all tx [] = tx
  stored_all tx ((w, o) ∷ os) = stored_all (stored tx o) os

  -- The transaction is at its outputs, has these and room for them, and names no change; and each of
  -- them can be written, has no authority, and its token is one of the transaction.
  pub record Expected (tx : TxInfo H) (os : Outputs) : Type 0 where
    pub tokens : tx.remaining_tokens ≡ 0
    pub inputs : tx.remaining_inputs ≡ 0
    pub outputs : tx.current_output + length os ≤ tx.outputs_len
    pub outputs_len : tx.outputs_len < 256
    pub room : tx.buffer_output_len + length os ≤ outputs_cap
    pub no_change : tx.change_len ≡ 0
    pub each :
        All
          (λ (p : Width × TxOutput).
            Encodable p.0 p.1
            × (bit_and p.1.token_data token_data_authority_mask ≡ 0)
            × (bit_and p.1.token_data token_data_index_mask ≤ tx.tokens_len))
          os

  first-Payable :
      (tx : TxInfo H) (w : Width) (o : TxOutput) (os : Outputs)
      → Expected tx ((w, o) ∷ os)
      → Payable tx o
  first-Payable tx w o os e = record {
    tokens = e.tokens;
    inputs = e.inputs;
    outputs = omega (arith, e.outputs);
    outputs_len = e.outputs_len;
    room = omega (arith, e.room);
    no_change = e.no_change;
    no_authority = e.each.0.1;
    known_token = e.each.0.2;
  }

  rest-Expected :
      (tx : TxInfo H) (w : Width) (o : TxOutput) (os : Outputs)
      → Expected tx ((w, o) ∷ os)
      → Expected (stored tx o) os
  rest-Expected tx w o os e = record {
    tokens = e.tokens;
    inputs = e.inputs;
    outputs = omega (arith, e.outputs);
    outputs_len = e.outputs_len;
    room = omega (arith, e.room);
    no_change = e.no_change;
    each = e.each.1;
  }

  feed-empty :
      (tx : TxInfo H) (xs : List ℕ)
      → tx.buffer_len ≡ 0
      → feed tx xs ≡ load tx xs (drop (length xs) tx.buffer)
  feed-empty tx xs empty =
      ap₂ (λ (b : List ℕ) (n : ℕ). record tx { buffer = b; buffer_len = n })
        (ap (λ n. take n tx.buffer ++ (xs ++ drop (length xs) (drop n tx.buffer))) empty)
        (omega arith)

  module _ (sdk : Sdk H) (registry : TokenData) where
    all_outputs :
        (k : ℕ) (tx : TxInfo H) (w : Width) (o : TxOutput) (os : Outputs) (junk : List ℕ)
        → length (encode_all ((w, o) ∷ os)) < k
        → length (encode_all ((w, o) ∷ os)) < 2 ^ 32
        → Expected tx ((w, o) ∷ os)
        → settled (round sdk registry k (load tx (encode_all ((w, o) ∷ os)) junk))
          ≡ some (ok tx_state_ready, some (load (stored_all tx ((w, o) ∷ os)) [] []))
    all_outputs zero tx w o os junk h small e = absurd (omega arith)
    all_outputs (suc k) tx w o [] junk h small e =
        let xs = encode w o [] in
        ap settled (
          round-after sdk registry k (load tx xs junk) _
            (one_output sdk registry tx w o [] junk (first-Payable tx w o [] e) e.each.0.0 small))
        ∙ drained_settled sdk registry k (stored tx o) [] _ refl
    all_outputs (suc k) tx w o ((w', o') ∷ os) junk h small e =
        let rest = encode_all ((w', o') ∷ os) in
        let n = length-encode w o rest e.each.0.0 in
        let n' = length-encode w' o' (encode_all os) e.each.1.0.0 in
        let left : length rest == 0 ≡ false = ground (arith, n') in
        ap settled (
          round-after sdk registry k (load tx (encode w o rest) junk) _ (
            one_output sdk registry tx w o rest junk (first-Payable tx w o ((w', o') ∷ os) e)
              e.each.0.0 small)
          ∙ going_on sdk registry k (stored tx o) rest _ left)
        ∙ all_outputs k (stored tx o) w' o' os _ (omega arith) (omega arith)
            (rest-Expected tx w o ((w', o') ∷ os) e)

    -- In a state that expects these outputs, their bytes are decoded to exactly them.
    pub decode_elements-encode_all :
        (tx : TxInfo H) (w : Width) (o : TxOutput) (os : Outputs)
        → tx.buffer_len ≡ 0
        → length (encode_all ((w, o) ∷ os)) < 2 ^ 32
        → Expected tx ((w, o) ∷ os)
        → settled (decode_elements sdk registry (feed tx (encode_all ((w, o) ∷ os))))
          ≡ some (ok tx_state_ready, some (load (stored_all tx ((w, o) ∷ os)) [] []))
    unfolding decode_elements round
    decode_elements-encode_all tx w o os empty small e =
        let xs = encode_all ((w, o) ∷ os) in
        ap (λ s. settled (decode_elements sdk registry s)) (feed-empty tx xs empty)
        ∙ all_outputs (suc (length xs)) tx w o os (drop (length xs) tx.buffer) (omega arith) small e

-- ===== src/SignTx/Stream/Encode.antt =====
-- One output in the wire format, at the start of the bytes that wait.
use hathor_ledger_app.Prelude.{
  ℕ, ◌+◌, ◌%◌, ◌^◌, ◌≤◌, ◌<◌, ◌≡◌, refl, sym, ap, ◌∙◌, bit_and, false, not, List, ◌∷◌, ◌++◌, set,
  take, drop, length, ltb, leb, ◌==◌, arith, length-append, drop-append, drop-drop,
}
use hathor_ledger_app.Result.{ok}
use hathor_ledger_app.Deserialize.{TxOutput, parse_output}
use hathor_ledger_app.Deserialize.RoundTrip.{
  Width, short, long, value_len, encode, Encodable, parse_output-encode,
}
use hathor_ledger_app.Sdk.{Sdk}
use hathor_ledger_app.Token.{TokenData}
use hathor_ledger_app.App.{TxInfo, outputs_cap}
use hathor_ledger_app.SignTx.{
  decode_element, decode_parsed, check_output, store_output, more_data, token_data_authority_mask,
  token_data_index_mask,
}
use hathor_ledger_app.SignTx.Change.{check_change}
use hathor_ledger_app.SignTx.Stream.{load}
use hathor_ledger_app.SignTx.Stream.Element.{left_behind, shift_buffer-load}
use hathor_ledger_app.SignTx.Stream.Output.{AtOutput, parsed_element}

pub length-encode :
    (w : Width) (o : TxOutput) (rest : List ℕ)
    → Encodable w o
    → length (encode w o rest) ≡ value_len w + 28 + length rest
length-encode short o rest e =
    omega (arith, length-append o.pubkey_hash (0x88 ∷ 0xAC ∷ rest), e.hash)
length-encode long o rest e =
    omega (arith, length-append o.pubkey_hash (0x88 ∷ 0xAC ∷ rest), e.hash)

drop-script :
    (hash rest : List ℕ) → length hash ≡ 20 → drop 22 (hash ++ (0x88 ∷ 0xAC ∷ rest)) ≡ rest
drop-script hash rest e =
    let end : List ℕ = 0x88 ∷ 0xAC ∷ rest in
    sym (drop-drop 20 2 (hash ++ end))
    ∙ ap (λ n. drop 2 (drop n (hash ++ end))) (sym e)
    ∙ ap (drop 2) (drop-append hash end)

drop-encode :
    (w : Width) (o : TxOutput) (rest : List ℕ)
    → Encodable w o
    → drop (value_len w + 28) (encode w o rest) ≡ rest
drop-encode short o rest e = drop-script o.pubkey_hash rest e.hash
drop-encode long o rest e = drop-script o.pubkey_hash rest e.hash

parsed_encode :
    (w : Width) (o : TxOutput) (rest : List ℕ)
    → Encodable w o
    → length (encode w o rest) < 2 ^ 32
    → parse_output (encode w o rest) (length (encode w o rest))
      ≡ ok (record o { index = 0 }, value_len w + 28)
parsed_encode w o rest e small =
    let long_enough : ltb (length (encode w o rest)) (value_len w + 28) ≡ false =
      ground (arith, length-encode w o rest e) in
    parse_output-encode w o rest (length (encode w o rest)) e small ∙ rw long_enough refl

module _ {H : Type 0} where
  -- The state with one more output.
  abbrev pub stored : TxInfo H → TxOutput → TxInfo H
  stored tx o = record tx {
    outputs = set tx.outputs tx.buffer_output_len (record o { index = tx.current_output });
    buffer_output_len = tx.buffer_output_len + 1;
    current_output = tx.current_output + 1;
  }

  -- There is room for one more output, it has no authority, and its token is one of the transaction.
  pub record Payable (tx : TxInfo H) (o : TxOutput) : Type 0 where
    pub tokens : tx.remaining_tokens ≡ 0
    pub inputs : tx.remaining_inputs ≡ 0
    pub outputs : tx.current_output < tx.outputs_len
    pub outputs_len : tx.outputs_len < 256
    pub room : tx.buffer_output_len < outputs_cap
    pub no_change : tx.change_len ≡ 0
    pub no_authority : bit_and o.token_data token_data_authority_mask ≡ 0
    pub known_token : bit_and o.token_data token_data_index_mask ≤ tx.tokens_len

  module _ (sdk : Sdk H) (registry : TokenData) where
    nothing_named :
        (tx : TxInfo H)
        → tx.change_len ≡ 0
        → (o : TxOutput) → check_change sdk (take tx.change_len tx.change_info) o ≡ ok tt
    unfolding check_change
    nothing_named tx no_change o = rw no_change refl

    checked :
        (tx : TxInfo H) (o : TxOutput) (len : ℕ) (xs junk : List ℕ)
        → Payable tx o
        → len ≤ length xs
        → check_output sdk (load tx xs junk) (record o { index = 0 }) len
          ≡ more_data (load (stored tx o) (drop len xs) (left_behind len xs junk))
    unfolding check_output store_output
    checked tx o len xs junk p fits =
        let plain : not (bit_and o.token_data token_data_authority_mask == 0) ≡ false =
          ground (arith, p.no_authority) in
        let known : ltb tx.tokens_len (bit_and o.token_data token_data_index_mask) ≡ false =
          ground (arith, p.known_token) in
        let verdict = nothing_named tx p.no_change (record o { index = tx.current_output }) in
        let room : leb outputs_cap tx.buffer_output_len ≡ false = ground (arith, p.room) in
        let next : (tx.current_output + 1) % 256 ≡ tx.current_output + 1 =
          omega (arith, p.outputs, p.outputs_len) in
        let len' : (tx.buffer_output_len + 1) % 256 ≡ tx.buffer_output_len + 1 =
          omega (arith, p.room) in
        rw (plain, known, verdict, room, next, len')
          (ap more_data (shift_buffer-load (stored tx o) len xs junk fits))

    pub one_output :
        (tx : TxInfo H) (w : Width) (o : TxOutput) (rest junk : List ℕ)
        → Payable tx o
        → Encodable w o
        → length (encode w o rest) < 2 ^ 32
        → decode_element sdk registry (load tx (encode w o rest) junk)
          ≡ more_data
              (load (stored tx o) rest (left_behind (value_len w + 28) (encode w o rest) junk))
    unfolding decode_parsed
    one_output tx w o rest junk p e small =
        let xs = encode w o rest in
        let len = value_len w + 28 in
        let here : AtOutput sdk registry tx = record {
          tokens = ground (arith, p.tokens);
          inputs = ground (arith, p.inputs);
          outputs = ground (arith, p.outputs);
        } in
        parsed_element sdk registry tx xs here xs junk _ small (parsed_encode w o rest e small)
        ∙ checked tx o len xs junk p (omega (arith, length-encode w o rest e))
        ∙ ap (λ (ys : List ℕ). more_data (load (stored tx o) ys (left_behind len xs junk)))
            (drop-encode w o rest e)

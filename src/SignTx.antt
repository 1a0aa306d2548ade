-- ===== src/SignTx.antt =====
-- src/handler/sign_tx.c: the decoder of the streamed transaction.
pub mod Change
pub mod Progress
pub mod Accept
pub mod Valid
pub mod Frame
pub mod Stream
pub mod ChangeEntries
pub mod ChangeInfo
use hathor_ledger_app.Prelude.{
  ℕ, zero, suc, ◌+◌, ◌-◌, ◌%◌, ◌^◌, bit_and, Bool, true, false, not, Option, none, some, List, [],
  ◌∷◌, ◌++◌, set, take, drop, length, ltb, leb, ◌==◌, if◌then◌else◌,
}
use hathor_ledger_app.Bytes.{at, read_u16_be}
use hathor_ledger_app.Buffer.{copy_to}
use hathor_ledger_app.Result.{
  Result, ok, throw, fault, sw_tx_parsing_fail, tx_state_err, tx_state_ready,
}
use hathor_ledger_app.Deserialize.{TxOutput, parse_output}
use hathor_ledger_app.Sdk.{Sdk}
use hathor_ledger_app.Token.{TokenData, find_token_registry_index, token_uid_len, tx_max_tokens}
use hathor_ledger_app.App.{TxInfo, buffer_cap, outputs_cap}
use Change.{check_change}

abbrev pub tx_input_len : ℕ
tx_input_len = 35

abbrev pub token_data_authority_mask : ℕ
token_data_authority_mask = 0x80

abbrev pub token_data_index_mask : ℕ
token_data_index_mask = 0x7F

-- buffer_len -= n; memmove(buffer, buffer + n, buffer_len)
abbrev pub shift_buffer : {H : Type 0} → TxInfo H → ℕ → TxInfo H
shift_buffer tx n = record tx {
  buffer_len = tx.buffer_len - n;
  buffer = copy_to (take (tx.buffer_len - n) (drop n tx.buffer)) tx.buffer;
}

-- What is left when an element has been read: is there more data to parse?
abbrev pub more_data : {H : Type 0} → TxInfo H → Result Bool × TxInfo H
more_data tx = (ok (not (tx.buffer_len == 0)), tx)

module _ {H : Type 0} where
  -- A token uid. The write `tokens[tokens_len++]` has no check of the bound: with ten tokens there it
  -- counts the token and writes past the end of the array.
  unfoldable pub decode_token : TokenData → TxInfo H → Result Bool × TxInfo H
  unfolding find_token_registry_index
  decode_token registry tx =
      if ltb tx.buffer_len token_uid_len
      then (throw tx_state_ready, tx)
      else elim (find_token_registry_index registry (take token_uid_len tx.buffer)) [
        | none ↦ (throw tx_state_err, tx)
        | some registry_index ↦
            if leb tx_max_tokens tx.tokens_len
            then (fault, record tx { tokens_len = (tx.tokens_len + 1) % 256 })
            else more_data (
                shift_buffer
                  (record tx {
                    tokens = set tx.tokens tx.tokens_len registry_index;
                    tokens_len = (tx.tokens_len + 1) % 256;
                    remaining_tokens = tx.remaining_tokens - 1;
                  })
                  token_uid_len)
      ]

  unfoldable pub decode_input : TxInfo H → Result Bool × TxInfo H
  decode_input tx =
      if ltb tx.buffer_len tx_input_len
      then (throw tx_state_ready, tx)
      else if ltb 0 (read_u16_be tx.buffer 33)
      then (throw tx_state_err, tx)
      else more_data
          (shift_buffer (record tx { remaining_inputs = tx.remaining_inputs - 1 }) tx_input_len)

  -- Moves the buffer past the output, and saves it for the user to confirm.
  unfoldable pub store_output : TxInfo H → TxOutput → ℕ → Result Bool × TxInfo H
  store_output tx output output_len =
      let tx' = shift_buffer tx output_len in
      if leb outputs_cap tx'.buffer_output_len
      then (throw tx_state_err, tx')
      else more_data (record tx' {
        outputs = set tx'.outputs tx'.buffer_output_len output;
        buffer_output_len = (tx'.buffer_output_len + 1) % 256;
      })

  module _ (sdk : Sdk H) where
    -- The checks on a parsed output.
    unfoldable pub check_output : TxInfo H → TxOutput → ℕ → Result Bool × TxInfo H
    check_output tx parsed output_len =
        if not (bit_and parsed.token_data token_data_authority_mask == 0)
        then (throw tx_state_err, tx)
        else if ltb tx.tokens_len (bit_and parsed.token_data token_data_index_mask)
        then (throw tx_state_err, tx)
        else (let output = record parsed { index = tx.current_output } in
            let tx' = record tx { current_output = (tx.current_output + 1) % 256 } in
            elim (check_change sdk (take tx'.change_len tx'.change_info) output) [
              | ok _ ↦ store_output tx' output output_len
              | throw e ↦ (throw e, tx')
              | fault ↦ (fault, tx')
            ])

    unfoldable pub decode_parsed : Result (TxOutput × ℕ) → TxInfo H → Result Bool × TxInfo H
    decode_parsed (ok (output, output_len)) tx = check_output tx output output_len
    decode_parsed (throw e) tx = (throw e, tx)
    decode_parsed fault tx = (fault, tx)

    unfoldable pub decode_output : TxInfo H → Result Bool × TxInfo H
    decode_output tx = decode_parsed (parse_output tx.buffer tx.buffer_len) tx

    -- `_decode_elements`: one element.
    unfoldable pub decode_element : TokenData → TxInfo H → Result Bool × TxInfo H
    decode_element registry tx =
        if ltb 0 tx.remaining_tokens
        then decode_token registry tx
        else if ltb 0 tx.remaining_inputs
        then decode_input tx
        else if ltb tx.current_output tx.outputs_len
        then decode_output tx
        else (throw tx_state_err, tx)

    -- The `while` loop of `decode_elements`, on fuel; without fuel it has no result.
    unfoldable pub decode_loop : ℕ → TokenData → TxInfo H → Option (Result (Unit {0}) × TxInfo H)
    decode_loop zero registry tx = none
    decode_loop (suc fuel) registry tx =
        let (r, tx') = decode_element registry tx in
        elim r [
          | ok true ↦ decode_loop fuel registry tx'
          | ok false ↦ some (ok tt, tx')
          | throw e ↦ some (throw e, tx')
          | fault ↦ some (fault, tx')
        ]

    -- CATCH(SW_TX_PARSING_FAIL) and CATCH_OTHER(e): the state that the decoder ends in.
    abbrev pub caught : Result (Unit {0}) → Result ℕ
    caught (ok _) = ok tx_state_ready
    caught (throw e) = ok (if e == sw_tx_parsing_fail then tx_state_err else e)
    caught fault = fault

    unfoldable pub catch_all : Option (Result (Unit {0}) × TxInfo H) → Option (Result ℕ × TxInfo H)
    catch_all none = none
    catch_all (some (r, tx)) = some (caught r, tx)

    -- Each element takes at least 32 bytes off the buffer, so its length bounds the rounds.
    unfoldable pub decode_elements : TokenData → TxInfo H → Option (Result ℕ × TxInfo H)
    decode_elements registry tx = catch_all (decode_loop (suc tx.buffer_len) registry tx)

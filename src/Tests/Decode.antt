-- ===== src/Tests/Decode.antt =====
-- The decoder, the registry and the digest on concrete states.
use hathor_ledger_app.Prelude.{
  ℕ, ◌≡◌, ◌≢◌, ◌≤◌, refl, true, false, Option, none, some, List, [], ◌∷◌, replicate, take, arith,
}
use hathor_ledger_app.Bytes.{read_u16_be, read_u32_be, read_u64_be}
use hathor_ledger_app.Buffer.{
  Buffer, buffer_can_read, buffer_seek_cur, buffer_read_u8, buffer_read_u16, buffer_read_u32,
  buffer_read_u64,
}
use hathor_ledger_app.Result.{Result, fault}
use hathor_ledger_app.Deserialize.{
  TxOutput, mem_eq, validate_p2pkh_script, parse_output_value, parse_output_rest, parse_output,
}
use hathor_ledger_app.Hathor.{compress_public_key, hash160, derive_private_key, init_public_key}
use hathor_ledger_app.Token.{
  TokenData, zero_token_data, find_index, find_token_registry_index, tx_max_tokens, zero_symbol,
}
use hathor_ledger_app.App.{App, TxInfo, zero_tx_info, zero_change}
use hathor_ledger_app.SignTx.{
  store_output, check_output, decode_parsed, decode_output, decode_element, decode_token,
  decode_elements,
}
use hathor_ledger_app.SignTx.Change.{path_hash, verify_change, check_change}
use hathor_ledger_app.SignTx.Accept.{Decoded, decode_output-Decoded}
use hathor_ledger_app.SignTx.Progress.{decode_elements-returns}
use hathor_ledger_app.SignTx.Valid
use hathor_ledger_app.Command.Tokens.{handler_send_token_data}
use hathor_ledger_app.Command.Registration.{handler_send_token_data-len}
use hathor_ledger_app.Tests.{test_sdk, idle, change_bytes}

-- One output is waited for, and it is there. It is change for the path of length 0.
abbrev decoding : TxInfo (List ℕ)
decoding = record (zero_tx_info test_sdk) {
  buffer = change_bytes;
  buffer_len = 32;
  outputs_len = 1;
  change_len = 1;
}

abbrev parsed : TxOutput
parsed = record { index = 0; value = 300; token_data = 0; pubkey_hash = 3 ∷ replicate 19 7 }

decode_output-Decoded_example :
    (o : TxOutput) × (len : ℕ) × Decoded test_sdk decoding (decode_output test_sdk decoding).1 o len
unfolding decode_output decode_parsed check_output store_output check_change verify_change path_hash
    parse_output parse_output_rest parse_output_value validate_p2pkh_script mem_eq buffer_read_u8
    buffer_read_u16 buffer_read_u32 buffer_read_u64 buffer_seek_cur buffer_can_read read_u16_be
    read_u32_be read_u64_be compress_public_key hash160 derive_private_key init_public_key
    zero_tx_info zero_change
decode_output-Decoded_example = decode_output-Decoded test_sdk decoding false (omega arith) refl

decode_elements-returns_example : decode_elements test_sdk zero_token_data decoding ≢ none
decode_elements-returns_example =
    decode_elements-returns test_sdk zero_token_data decoding (omega arith)

abbrev final : Option (Result ℕ × TxInfo (List ℕ)) → TxInfo (List ℕ)
final none = decoding
final (some (r, tx)) = tx

-- A registry of one token, whose uid is all zeros.
abbrev one_token : TokenData
one_token = record zero_token_data { len = 1 }

-- The eleventh token of a transaction.
abbrev eleventh : TxInfo (List ℕ)
eleventh = record (zero_tx_info test_sdk) {
  buffer = replicate 32 0;
  buffer_len = 32;
  tokens_len = 10;
  remaining_tokens = 1;
}

eleventh_token :
    (decode_element test_sdk one_token eleventh) ≡ (fault, record eleventh { tokens_len = 11 })
unfolding decode_element decode_token find_token_registry_index find_index mem_eq zero_token_data
    zero_symbol zero_tx_info
eleventh_token = refl

-- A transaction whose digest starts with 1.
abbrev unsigned : TxInfo (List ℕ)
unsigned = record (zero_tx_info test_sdk) { sha256 = 1 ∷ [] }

abbrev signed : TxInfo (List ℕ)
signed = record (zero_tx_info test_sdk) { sha256 = []; sighash_all = take 32 (1 ∷ replicate 32 1) }

-- A full registry.
abbrev full : App (List ℕ)
full = record idle { symbols = record zero_token_data { len = 10 } }

abbrev no_data : Buffer
no_data = record { ptr = []; size = 0; offset = 0 }

handler_send_token_data-len_example :
    (handler_send_token_data test_sdk true no_data full).1.symbols.len ≤ tx_max_tokens
handler_send_token_data-len_example =
    handler_send_token_data-len test_sdk true no_data full (omega arith)

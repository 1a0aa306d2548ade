-- ===== src/Tests/Unseen.antt =====
-- A host that does not wait: a second chunk arrives while the first output is still on the screen.
use hathor_ledger_app.App.{zero_change, zero_output, zero_pk_info, zero_tx_info}
use hathor_ledger_app.Base58.{zero_prefix, carry_loop, encode_loop, base58_encode}
use hathor_ledger_app.Bip32.{read_levels, levels_allowed, bip32_path_read}
use hathor_ledger_app.Buffer.{
  buffer_can_read, buffer_seek_set, buffer_seek_cur, buffer_seek_end, buffer_read_u8,
  buffer_read_u16, buffer_read_u32, buffer_read_u64, buffer_read_bip32_path, buffer_read_bytes,
  buffer_copy, buffer_move,
}
use hathor_ledger_app.Bytes.{
  read_u16_be, read_u32_be, read_u64_be, read_u16_le, read_u32_le, read_u64_le, write_u16_be,
  write_u32_be, write_u64_be, write_u16_le, write_u32_le, write_u64_le,
}
use hathor_ledger_app.Command.{apdu_parser}
use hathor_ledger_app.Command.Dispatch.{
  data_buffer, has_data, stage_of, dispatch_sign_tx, apdu_dispatcher,
}
use hathor_ledger_app.Command.Main.{
  press_action, start_app_main, await_command, command_arrived, run_callback, finish_command,
  finish_press, serve_parsed, serve_command, press_with, press_button, serve, serve_next, serve_all,
  Event, command, button,
}
use hathor_ledger_app.Deserialize.{
  mem_eq, validate_p2pkh_script, parse_output_value, parse_output_rest, parse_output,
}
use hathor_ledger_app.Display.{
  output_screen, least_position, sort_loop, inplace_selection_sort, is_confirm_transaction,
  is_parsed, action_exit_to_menu, ui_action_tx_confirm, ui_display_tx_confirm,
  check_output_index_state, skip_loop, skip_change_outputs, prepare_display_output,
  ui_display_tx_outputs, ui_confirm_output,
}
use hathor_ledger_app.Display.Flows.{action_at}
use hathor_ledger_app.Display.Render.{c_string, fake_index, symbol_of, index_text, render}
use hathor_ledger_app.Format.{
  swap_ends, u64_digits, format_u64, itoa_digits, itoa, group_digits, drop_last, format_value,
}
use hathor_ledger_app.Handler.{
  reject_stage, data_stage, handler_sign_tx, is_recv_data, init_sign_tx_ctx, sighash_all_hash,
  append_to_buffer, finish_chunk, start_transaction, receive_data, is_approved, finish_sighash,
  sign_sighash, sign_tx_with_key, sign_stage,
}
use hathor_ledger_app.Hathor.{
  compress_public_key, sha256d, hash160, address_from_pubkey_hash, address_from_pubkey,
  derive_private_key, init_public_key,
}
use hathor_ledger_app.Io.{finish_response, with_sw, io_send_sw, io_send_response}
use hathor_ledger_app.SignTx.{
  decode_token, decode_input, store_output, check_output, decode_parsed, decode_output,
  decode_element, decode_loop, catch_all, decode_elements,
}
use hathor_ledger_app.SignTx.Change.{
  path_hash, verify_change, check_change, read_change_entries, read_change_info_v1,
  read_change_info_old_protocol, read_change_info, read_tx_data,
}
use hathor_ledger_app.Token.{
  zero_token, zero_symbol, zero_token_data, is_printable, parse_token_texts, parse_token,
  find_index, find_token_registry_index, init_token_signature_message, sign_token,
  verify_token_signature,
}
use hathor_ledger_app.Prelude.{◌≡◌, ℕ, refl, true, Option, none, some, List, [], ◌∷◌}
use hathor_ledger_app.App.{App}
use hathor_ledger_app.Tests.{test_sdk, idle, change_bytes, output_bytes}
use hathor_ledger_app.Display.Shown.{current}

-- SIGN_TX: output 1 is change for the path 0, version 1, no token, no input, three outputs, of which
-- the first, of 3.00 HTR, is in this chunk.
abbrev first_chunk : List ℕ
first_chunk =
    0xE0 ∷ 6 ∷ 0 ∷ 0 ∷ 45 ∷ 1 ∷ 1 ∷ 1 ∷ 1 ∷ 0 ∷ 0 ∷ 0 ∷ 0 ∷ 0 ∷ 1 ∷ 0 ∷ 0 ∷ 3 ∷ output_bytes

abbrev later_chunk : ℕ → List ℕ → List ℕ
later_chunk n output = 0xE0 ∷ 6 ∷ 0 ∷ n ∷ 32 ∷ output

abbrev outcome : Option (App (List ℕ)) → App (List ℕ)
outcome none = idle
outcome (some app) = app

abbrev after : List Event → App (List ℕ)
after events = outcome (serve_all test_sdk 1 1 0 0 events idle)

-- Two chunks, with no press between them.
abbrev two_chunks : List Event
two_chunks = command (later_chunk 1 change_bytes) 37 ∷ command first_chunk 50 ∷ []

-- The third chunk, behind the press on the screen of the second output.
abbrev three_chunks : List Event
three_chunks = command (later_chunk 2 output_bytes) 37 ∷ button 3 ∷ two_chunks

-- The second press on an output, and "Approve" on the screen that asks whether to send.
abbrev whole_run : List Event
whole_run = button 1 ∷ button 3 ∷ three_chunks

-- The screens at which the user presses show the outputs 1 and 2, and the transaction is approved:
-- nobody has confirmed output 0.
first_output_not_confirmed :
    ((current test_sdk (after two_chunks)).index ≡ 1)
    × ((current test_sdk (after three_chunks)).index ≡ 2)
    × (is_approved (after whole_run).ctx.state ≡ true)
unfolding press_action action_at zero_change zero_output zero_pk_info zero_tx_info zero_prefix
    carry_loop encode_loop base58_encode read_levels levels_allowed bip32_path_read buffer_can_read
    buffer_seek_set buffer_seek_cur buffer_seek_end buffer_read_u8 buffer_read_u16 buffer_read_u32
    buffer_read_u64 buffer_read_bip32_path buffer_read_bytes buffer_copy buffer_move read_u16_be
    read_u32_be read_u64_be read_u16_le read_u32_le read_u64_le write_u16_be write_u32_be
    write_u64_be write_u16_le write_u32_le write_u64_le apdu_parser data_buffer has_data stage_of
    dispatch_sign_tx apdu_dispatcher start_app_main await_command command_arrived run_callback
    finish_command finish_press serve_parsed serve_command press_with press_button serve serve_next
    serve_all mem_eq validate_p2pkh_script parse_output_value parse_output_rest parse_output
    least_position sort_loop inplace_selection_sort is_confirm_transaction is_parsed
    action_exit_to_menu ui_action_tx_confirm ui_display_tx_confirm check_output_index_state
    skip_loop skip_change_outputs output_screen prepare_display_output ui_display_tx_outputs
    ui_confirm_output c_string fake_index symbol_of index_text render swap_ends u64_digits
    format_u64 itoa_digits itoa group_digits drop_last format_value reject_stage data_stage
    handler_sign_tx is_recv_data init_sign_tx_ctx sighash_all_hash append_to_buffer finish_chunk
    start_transaction receive_data is_approved finish_sighash sign_sighash sign_tx_with_key
    sign_stage compress_public_key sha256d hash160 address_from_pubkey_hash address_from_pubkey
    derive_private_key init_public_key finish_response with_sw io_send_sw io_send_response
    decode_token decode_input store_output check_output decode_parsed decode_output decode_element
    decode_loop catch_all decode_elements path_hash verify_change check_change read_change_entries
    read_change_info_v1 read_change_info_old_protocol read_change_info read_tx_data zero_token
    zero_symbol zero_token_data is_printable parse_token_texts parse_token find_index
    find_token_registry_index init_token_signature_message sign_token verify_token_signature
first_output_not_confirmed = (refl, refl, refl)

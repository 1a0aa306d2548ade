-- ===== src/Tests/Run.antt =====
-- A run of the program that approves a transaction.
use hathor_ledger_app.App.{zero_change, zero_output, zero_pk_info, zero_tx_info}
use hathor_ledger_app.Base58.{zero_prefix, carry_loop, encode_loop, base58_encode}
use hathor_ledger_app.Bip32.{read_levels, levels_allowed, bip32_path_read}
use hathor_ledger_app.Buffer.{
  buffer_can_read, buffer_seek_set, buffer_seek_cur, buffer_seek_end, buffer_read_u8,
  buffer_read_u16, buffer_read_u32, buffer_read_u64, buffer_read_bip32_path, buffer_read_bytes,
  buffer_copy, buffer_move,
}
use hathor_ledger_app.Bytes.{
  read_u16_be, read_u32_be, read_u64_be, read_u16_le, read_u32_le, read_u64_le, write_u16_be,
  write_u32_be, write_u64_be, write_u16_le, write_u32_le, write_u64_le,
}
use hathor_ledger_app.Command.{apdu_parser}
use hathor_ledger_app.Command.Dispatch.{
  data_buffer, has_data, stage_of, dispatch_sign_tx, apdu_dispatcher,
}
use hathor_ledger_app.Command.Main.{
  press_action, start_app_main, await_command, command_arrived, run_callback, finish_command,
  finish_press, serve_parsed, serve_command, press_with, press_button, serve, serve_next, serve_all,
  Event, command, button,
}
use hathor_ledger_app.Deserialize.{
  mem_eq, validate_p2pkh_script, parse_output_value, parse_output_rest, parse_output,
}
use hathor_ledger_app.Display.{
  output_screen, least_position, sort_loop, inplace_selection_sort, is_confirm_transaction,
  is_parsed, action_exit_to_menu, ui_action_tx_confirm, ui_display_tx_confirm,
  check_output_index_state, skip_loop, skip_change_outputs, prepare_display_output,
  ui_display_tx_outputs, ui_confirm_output,
}
use hathor_ledger_app.Display.Flows.{action_at}
use hathor_ledger_app.Display.Render.{c_string, fake_index, symbol_of, index_text, render}
use hathor_ledger_app.Format.{
  swap_ends, u64_digits, format_u64, itoa_digits, itoa, group_digits, drop_last, format_value,
}
use hathor_ledger_app.Handler.{
  reject_stage, data_stage, handler_sign_tx, is_recv_data, init_sign_tx_ctx, sighash_all_hash,
  append_to_buffer, finish_chunk, start_transaction, receive_data, is_approved, finish_sighash,
  sign_sighash, sign_tx_with_key, sign_stage,
}
use hathor_ledger_app.Hathor.{
  compress_public_key, sha256d, hash160, address_from_pubkey_hash, address_from_pubkey,
  derive_private_key, init_public_key,
}
use hathor_ledger_app.Io.{finish_response, with_sw, io_send_sw, io_send_response}
use hathor_ledger_app.SignTx.{
  decode_token, decode_input, store_output, check_output, decode_parsed, decode_output,
  decode_element, decode_loop, catch_all, decode_elements,
}
use hathor_ledger_app.SignTx.Change.{
  path_hash, verify_change, check_change, read_change_entries, read_change_info_v1,
  read_change_info_old_protocol, read_change_info, read_tx_data,
}
use hathor_ledger_app.Token.{
  zero_token, zero_symbol, zero_token_data, is_printable, parse_token_texts, parse_token,
  find_index, find_token_registry_index, init_token_signature_message, sign_token,
  verify_token_signature,
}
use hathor_ledger_app.Prelude.{◌≡◌, ℕ, refl, true, Option, none, some, List, [], ◌∷◌}
use hathor_ledger_app.App.{App, action_tx_confirm, display_confirm_tx}
use hathor_ledger_app.Approval.{NotApproved, belongs}
use hathor_ledger_app.Approval.Serve.{serve_command-NotApproved}
use hathor_ledger_app.Approval.Button.{approves, press_button-NotApproved}
use hathor_ledger_app.Approval.Trace.{serve_all-belongs, Pressed, serve_all-approved}
use hathor_ledger_app.Tests.{test_sdk, idle, change_bytes}

-- SIGN_TX: output 0 is change for the path 0, version 1, no token, no input, one output.
abbrev sign_tx_bytes : List ℕ
sign_tx_bytes =
    0xE0 ∷ 6 ∷ 0 ∷ 0 ∷ 45 ∷ 1 ∷ 1 ∷ 0 ∷ 1 ∷ 0 ∷ 0 ∷ 0 ∷ 0 ∷ 0 ∷ 1 ∷ 0 ∷ 0 ∷ 1 ∷ change_bytes

-- The transaction arrives, and the user presses "Approve" on the screen that follows.
abbrev run : List Event
run = button 1 ∷ command sign_tx_bytes 50 ∷ []

abbrev outcome : Option (App (List ℕ)) → App (List ℕ)
outcome none = idle
outcome (some app) = app

serve_all-approved_example : Pressed test_sdk 1 1 0 0 idle run
unfolding press_action action_at zero_change zero_output zero_pk_info zero_tx_info zero_prefix
    carry_loop encode_loop base58_encode read_levels levels_allowed bip32_path_read buffer_can_read
    buffer_seek_set buffer_seek_cur buffer_seek_end buffer_read_u8 buffer_read_u16 buffer_read_u32
    buffer_read_u64 buffer_read_bip32_path buffer_read_bytes buffer_copy buffer_move read_u16_be
    read_u32_be read_u64_be read_u16_le read_u32_le read_u64_le write_u16_be write_u32_be
    write_u64_be write_u16_le write_u32_le write_u64_le apdu_parser data_buffer has_data stage_of
    dispatch_sign_tx apdu_dispatcher start_app_main await_command command_arrived run_callback
    finish_command finish_press serve_parsed serve_command press_with press_button serve serve_next
    serve_all mem_eq validate_p2pkh_script parse_output_value parse_output_rest parse_output
    least_position sort_loop inplace_selection_sort is_confirm_transaction is_parsed
    action_exit_to_menu ui_action_tx_confirm ui_display_tx_confirm check_output_index_state
    skip_loop skip_change_outputs output_screen prepare_display_output ui_display_tx_outputs
    ui_confirm_output c_string fake_index symbol_of index_text render swap_ends u64_digits
    format_u64 itoa_digits itoa group_digits drop_last format_value reject_stage data_stage
    handler_sign_tx is_recv_data init_sign_tx_ctx sighash_all_hash append_to_buffer finish_chunk
    start_transaction receive_data is_approved finish_sighash sign_sighash sign_tx_with_key
    sign_stage compress_public_key sha256d hash160 address_from_pubkey_hash address_from_pubkey
    derive_private_key init_public_key finish_response with_sw io_send_sw io_send_response
    decode_token decode_input store_output check_output decode_parsed decode_output decode_element
    decode_loop catch_all decode_elements path_hash verify_change check_change read_change_entries
    read_change_info_v1 read_change_info_old_protocol read_change_info read_tx_data zero_token
    zero_symbol zero_token_data is_printable parse_token_texts parse_token find_index
    find_token_registry_index init_token_signature_message sign_token verify_token_signature
serve_all-approved_example =
    serve_all-approved test_sdk 1 1 0 0 idle run (outcome (serve_all test_sdk 1 1 0 0 run idle))
      refl refl

serve_all-belongs_example :
    belongs
      (outcome (serve_all test_sdk 1 1 0 0 run idle)).flow
      (outcome (serve_all test_sdk 1 1 0 0 run idle)).callback
    ≡ true
unfolding press_action action_at zero_change zero_output zero_pk_info zero_tx_info zero_prefix
    carry_loop encode_loop base58_encode read_levels levels_allowed bip32_path_read buffer_can_read
    buffer_seek_set buffer_seek_cur buffer_seek_end buffer_read_u8 buffer_read_u16 buffer_read_u32
    buffer_read_u64 buffer_read_bip32_path buffer_read_bytes buffer_copy buffer_move read_u16_be
    read_u32_be read_u64_be read_u16_le read_u32_le read_u64_le write_u16_be write_u32_be
    write_u64_be write_u16_le write_u32_le write_u64_le apdu_parser data_buffer has_data stage_of
    dispatch_sign_tx apdu_dispatcher start_app_main await_command command_arrived run_callback
    finish_command finish_press serve_parsed serve_command press_with press_button serve serve_next
    serve_all mem_eq validate_p2pkh_script parse_output_value parse_output_rest parse_output
    least_position sort_loop inplace_selection_sort is_confirm_transaction is_parsed
    action_exit_to_menu ui_action_tx_confirm ui_display_tx_confirm check_output_index_state
    skip_loop skip_change_outputs output_screen prepare_display_output ui_display_tx_outputs
    ui_confirm_output c_string fake_index symbol_of index_text render swap_ends u64_digits
    format_u64 itoa_digits itoa group_digits drop_last format_value reject_stage data_stage
    handler_sign_tx is_recv_data init_sign_tx_ctx sighash_all_hash append_to_buffer finish_chunk
    start_transaction receive_data is_approved finish_sighash sign_sighash sign_tx_with_key
    sign_stage compress_public_key sha256d hash160 address_from_pubkey_hash address_from_pubkey
    derive_private_key init_public_key finish_response with_sw io_send_sw io_send_response
    decode_token decode_input store_output check_output decode_parsed decode_output decode_element
    decode_loop catch_all decode_elements path_hash verify_change check_change read_change_entries
    read_change_info_v1 read_change_info_old_protocol read_change_info read_tx_data zero_token
    zero_symbol zero_token_data is_printable parse_token_texts parse_token find_index
    find_token_registry_index init_token_signature_message sign_token verify_token_signature
serve_all-belongs_example =
    serve_all-belongs test_sdk 1 1 0 0 idle run (outcome (serve_all test_sdk 1 1 0 0 run idle)) refl

serve_command-NotApproved_example :
    NotApproved (outcome (serve_command test_sdk 1 1 0 0 sign_tx_bytes 50 idle))
unfolding press_action action_at zero_change zero_output zero_pk_info zero_tx_info zero_prefix
    carry_loop encode_loop base58_encode read_levels levels_allowed bip32_path_read buffer_can_read
    buffer_seek_set buffer_seek_cur buffer_seek_end buffer_read_u8 buffer_read_u16 buffer_read_u32
    buffer_read_u64 buffer_read_bip32_path buffer_read_bytes buffer_copy buffer_move read_u16_be
    read_u32_be read_u64_be read_u16_le read_u32_le read_u64_le write_u16_be write_u32_be
    write_u64_be write_u16_le write_u32_le write_u64_le apdu_parser data_buffer has_data stage_of
    dispatch_sign_tx apdu_dispatcher start_app_main await_command command_arrived run_callback
    finish_command finish_press serve_parsed serve_command press_with press_button serve serve_next
    serve_all mem_eq validate_p2pkh_script parse_output_value parse_output_rest parse_output
    least_position sort_loop inplace_selection_sort is_confirm_transaction is_parsed
    action_exit_to_menu ui_action_tx_confirm ui_display_tx_confirm check_output_index_state
    skip_loop skip_change_outputs output_screen prepare_display_output ui_display_tx_outputs
    ui_confirm_output c_string fake_index symbol_of index_text render swap_ends u64_digits
    format_u64 itoa_digits itoa group_digits drop_last format_value reject_stage data_stage
    handler_sign_tx is_recv_data init_sign_tx_ctx sighash_all_hash append_to_buffer finish_chunk
    start_transaction receive_data is_approved finish_sighash sign_sighash sign_tx_with_key
    sign_stage compress_public_key sha256d hash160 address_from_pubkey_hash address_from_pubkey
    derive_private_key init_public_key finish_response with_sw io_send_sw io_send_response
    decode_token decode_input store_output check_output decode_parsed decode_output decode_element
    decode_loop catch_all decode_elements path_hash verify_change check_change read_change_entries
    read_change_info_v1 read_change_info_old_protocol read_change_info read_tx_data zero_token
    zero_symbol zero_token_data is_printable parse_token_texts parse_token find_index
    find_token_registry_index init_token_signature_message sign_token verify_token_signature
serve_command-NotApproved_example =
    serve_command-NotApproved test_sdk 1 1 0 0 sign_tx_bytes 50 idle
      (outcome (serve_command test_sdk 1 1 0 0 sign_tx_bytes 50 idle)) refl refl

-- The screen that asks for approval.
abbrev asking : App (List ℕ)
asking = record idle { callback = some action_tx_confirm; flow = display_confirm_tx }

press_button-NotApproved_example : NotApproved (outcome (press_button test_sdk 1 1 0 0 2 asking))
unfolding press_action action_at zero_change zero_output zero_pk_info zero_tx_info zero_prefix
    carry_loop encode_loop base58_encode read_levels levels_allowed bip32_path_read buffer_can_read
    buffer_seek_set buffer_seek_cur buffer_seek_end buffer_read_u8 buffer_read_u16 buffer_read_u32
    buffer_read_u64 buffer_read_bip32_path buffer_read_bytes buffer_copy buffer_move read_u16_be
    read_u32_be read_u64_be read_u16_le read_u32_le read_u64_le write_u16_be write_u32_be
    write_u64_be write_u16_le write_u32_le write_u64_le apdu_parser data_buffer has_data stage_of
    dispatch_sign_tx apdu_dispatcher start_app_main await_command command_arrived run_callback
    finish_command finish_press serve_parsed serve_command press_with press_button serve serve_next
    serve_all mem_eq validate_p2pkh_script parse_output_value parse_output_rest parse_output
    least_position sort_loop inplace_selection_sort is_confirm_transaction is_parsed
    action_exit_to_menu ui_action_tx_confirm ui_display_tx_confirm check_output_index_state
    skip_loop skip_change_outputs output_screen prepare_display_output ui_display_tx_outputs
    ui_confirm_output c_string fake_index symbol_of index_text render swap_ends u64_digits
    format_u64 itoa_digits itoa group_digits drop_last format_value reject_stage data_stage
    handler_sign_tx is_recv_data init_sign_tx_ctx sighash_all_hash append_to_buffer finish_chunk
    start_transaction receive_data is_approved finish_sighash sign_sighash sign_tx_with_key
    sign_stage compress_public_key sha256d hash160 address_from_pubkey_hash address_from_pubkey
    derive_private_key init_public_key finish_response with_sw io_send_sw io_send_response
    decode_token decode_input store_output check_output decode_parsed decode_output decode_element
    decode_loop catch_all decode_elements path_hash verify_change check_change read_change_entries
    read_change_info_v1 read_change_info_old_protocol read_change_info read_tx_data zero_token
    zero_symbol zero_token_data is_printable parse_token_texts parse_token find_index
    find_token_registry_index init_token_signature_message sign_token verify_token_signature
    approves
press_button-NotApproved_example =
    press_button-NotApproved test_sdk 1 1 0 0 2 asking
      (outcome (press_button test_sdk 1 1 0 0 2 asking)) refl refl refl

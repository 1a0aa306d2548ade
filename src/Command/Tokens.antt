-- ===== src/Command/Tokens.antt =====
-- src/handler/: the commands about custom tokens, and the actions behind their screens.
use hathor_ledger_app.Prelude.{
  none, ◌+◌, Bool, true, false, ◌||◌, some, [], ◌∷◌, ◌++◌, set, get_or, take, ltb, leb, ◌==◌,
  if◌then◌else◌,
}
use hathor_ledger_app.Buffer.{Buffer, copy_to}
use hathor_ledger_app.Result.{
  sw_ok, sw_deny, sw_wrong_data_length, sw_invalid_signature, sw_internal_error,
}
use hathor_ledger_app.Sdk.{Sdk}
use hathor_ledger_app.Token.{
  Token, zero_token, token_uid_len, TokenSymbol, zero_symbol, zero_token_data, tx_max_tokens,
  max_token_symbol_len, max_token_name_len, parse_token, sign_token,
}
use hathor_ledger_app.App.{
  App, action_sign_token_data, confirm_reset_token_signatures, display_sign_token_data,
  display_reset_token_signatures,
}
use hathor_ledger_app.Format.{format_hex}
use hathor_ledger_app.Display.Render.{c_string}
use hathor_ledger_app.Io.{Ret, code, io_send_sw, io_send_response}
use hathor_ledger_app.Storage.{generate_secret, get_secret, check_token_signature_from_apdu}
use hathor_ledger_app.Display.{ui_menu_main, clear_ctx, send}

-- The new entry of the registry. Only its `symbol_len + 1` first bytes are written.
abbrev pub entry_of : Token → TokenSymbol → TokenSymbol
entry_of token old = record {
  uid = token.uid;
  symbol = copy_to (take token.symbol_len token.symbol ++ (0 ∷ [])) old.symbol;
}

module _ {H : Type 0} (sdk : Sdk H) where
  -- explicit_bzero(&G_token_symbols, …)
  abbrev pub clear_symbols : App H → App H
  clear_symbols app = record app { symbols = zero_token_data }

  -- The end of `handler_send_token_data`, for a verified token.
  unfoldable pub save_token : Token → App H → Ret × App H
  save_token token app =
      let i = app.symbols.len in
      let old = get_or app.symbols.tokens i zero_symbol in
      let with_entry = λ (entry : TokenSymbol). record app {
        symbols = record { len = i + 1; tokens = set app.symbols.tokens i entry };
      } in
      if ltb max_token_symbol_len token.symbol_len
      then io_send_sw sdk sw_wrong_data_length (with_entry (record old { uid = token.uid }))
      else io_send_sw sdk sw_ok (with_entry (entry_of token old))

  -- From the test of the registry's length on.
  unfoldable pub register_token : Buffer → App H → Ret × App H
  register_token b app =
      let (verified, token, app') = check_token_signature_from_apdu sdk b zero_token app in
      if leb tx_max_tokens app.symbols.len
      then io_send_sw sdk sw_wrong_data_length (clear_symbols app)
      else if verified == 0
      then save_token token app'
      else if verified == 1
      then io_send_sw sdk sw_invalid_signature app'
      else io_send_sw sdk sw_internal_error app'

  unfoldable pub handler_send_token_data : Bool → Buffer → App H → Ret × App H
  handler_send_token_data first b app =
      register_token b (if first then clear_symbols (clear_ctx sdk app) else app)

  unfoldable pub handler_verify_token_signature : Buffer → App H → Ret × App H
  handler_verify_token_signature b app =
      let (verified, token, app') =
        check_token_signature_from_apdu sdk b zero_token (clear_ctx sdk app) in
      if verified == 0
      then io_send_sw sdk sw_ok app'
      else if verified == 1
      then io_send_sw sdk sw_invalid_signature app'
      else io_send_sw sdk sw_internal_error app'

  unfoldable pub ui_display_sign_token_data : App H → Ret × App H
  ui_display_sign_token_data app =
      let token = app.ctx.token in
      if ltb max_token_symbol_len token.symbol_len || ltb max_token_name_len token.name_len
      then (code 1, ui_menu_main (send sdk sw_internal_error (clear_ctx sdk app)))
      else (
        code 0,
        record app {
          callback = some action_sign_token_data;
          flow = display_sign_token_data;
          screen = record app.screen {
            token_symbol = c_string (take token.symbol_len token.symbol);
            token_name = c_string (take token.name_len token.name);
            token_uid = elim (format_hex (take token_uid_len token.uid) 65) [
              | none ↦ app.screen.token_uid
              | some text ↦ text
            ];
          };
        },
      )

  unfoldable pub handler_sign_token_data : Buffer → App H → Ret × App H
  handler_sign_token_data b app =
      let app1 = clear_ctx sdk app in
      let (parsed, token, _) = parse_token b app1.ctx.token in
      let app2 = record app1 { ctx = record app1.ctx { token = token } } in
      if parsed then ui_display_sign_token_data app2 else io_send_sw sdk sw_invalid_signature app2

  unfoldable pub helper_send_token_data_signature : App H → App H
  helper_send_token_data_signature app =
      let (secret, app') = get_secret sdk app in
      (io_send_response sdk
        (record { ptr = take 32 (sign_token sdk secret app'.ctx.token); size = 32; offset = 0 })
        sw_ok app').1

  unfoldable pub ui_action_sign_token_data : Bool → App H → App H
  ui_action_sign_token_data true app = ui_menu_main (helper_send_token_data_signature app)
  ui_action_sign_token_data false app = ui_menu_main (send sdk sw_deny (clear_ctx sdk app))

  -- handler_reset_token_signatures
  unfoldable pub ui_display_reset_token_signatures_confirm : App H → Ret × App H
  ui_display_reset_token_signatures_confirm app = (
    code 0,
    record app {
      callback = some confirm_reset_token_signatures;
      flow = display_reset_token_signatures;
    },
  )

  unfoldable pub ui_confirm_reset_token_signatures : Bool → App H → App H
  ui_confirm_reset_token_signatures true app =
      ui_menu_main (send sdk sw_ok (generate_secret sdk app))
  ui_confirm_reset_token_signatures false app = ui_menu_main (send sdk sw_deny app)

-- ===== src/Approval/Handlers.antt =====
-- The handlers: none of them approves a transaction, or leaves a screen with another's buttons.
use hathor_ledger_app.Prelude.{ℕ, Bool, true, false, List, [], arith}
use hathor_ledger_app.Buffer.{Buffer}
use hathor_ledger_app.Result.{sw_ok, sw_wrong_data_length}
use hathor_ledger_app.Exec.{pure}
use hathor_ledger_app.Sdk.{Sdk}
use hathor_ledger_app.Token.{zero_token}
use hathor_ledger_app.App.{App, RequestType, confirm_address, confirm_xpub}
use hathor_ledger_app.Io.{io_send_response, zero_or_minus_one, io_send_sw, finish_response}
use hathor_ledger_app.Handler.{
  sign_sighash, sign_tx_with_key, is_approved, receive_data, sign_stage, reject_stage, data_stage,
  handler_sign_tx, Stage, stage_data, stage_sign, stage_done, stage_other, reset_display,
}
use hathor_ledger_app.Display.{clear_ctx, ui_menu_main}
use hathor_ledger_app.Command.Tokens.{
  clear_symbols, handler_send_token_data, handler_verify_token_signature,
  ui_display_sign_token_data, handler_sign_token_data, ui_display_reset_token_signatures_confirm,
}
use hathor_ledger_app.Command.Keys.{
  derive_address, derive_xpub, show_address, ui_display_confirm_address, ui_display_xpub_confirm,
  read_path, handler_get_address, handler_get_xpub, handler_get_version,
}
use hathor_ledger_app.Approval.{Safe, safe}
use hathor_ledger_app.Approval.Screens.{Keeps-send, Keeps-reset as Keeps-reset_menu}
use hathor_ledger_app.Approval.Commands.{
  Keeps-continue, Keeps-receive, Keeps-register, Keeps-check_signature, Keeps-cleared,
}

module _ {H : Type 0} (sdk : Sdk H) (buttons states : Bool) where
  abbrev Keeps : App H → Type 0
  Keeps app = Safe buttons states app

  pub Keeps-answer : (sw : ℕ) (app : App H) → Keeps app → Keeps (io_send_sw sdk sw app).1
  Keeps-answer sw app h = Keeps-send sdk buttons states sw app h

  Keeps-sighash : (key : List ℕ) (app : App H) → Keeps app → Keeps (sign_sighash sdk key app).1
  unfolding sign_sighash io_send_response io_send_sw finish_response
  Keeps-sighash key app h = ground arith

  Keeps-sign_key : (app : App H) → Keeps app → Keeps (sign_tx_with_key sdk app).1
  unfolding sign_tx_with_key
  Keeps-sign_key app h = grind (arith, Keeps-sighash, Keeps-answer)

  Keeps-sign : (b : Buffer) (app : App H) → Keeps app → Keeps (sign_stage sdk b app).1
  unfolding sign_stage
  Keeps-sign b app h = grind (arith, Keeps-sign_key, Keeps-answer)

  Keeps-reject : (app : App H) → Keeps (reject_stage sdk app).1
  unfolding reject_stage safe io_send_sw finish_response
  Keeps-reject app = ground arith

  Keeps-data :
      (e : ℕ) (b : Buffer) (chunk : ℕ) (app : App H)
      → Keeps app
      → Keeps (data_stage sdk e b chunk app).1
  unfolding data_stage
  Keeps-data e b chunk app h = ground (
    arith,
    Keeps-reject app,
    Keeps-continue sdk buttons states (receive_data sdk e b chunk app).0
        (λ received. pure (zero_or_minus_one received)) (receive_data sdk e b chunk app).1
        (Keeps-receive sdk buttons states e b chunk app h)
        (λ _. Keeps-receive sdk buttons states e b chunk app h),
  )

  pub Keeps-sign_tx :
      (e : ℕ) (b : Buffer) (stage : Stage) (chunk : ℕ) (app : App H)
      → Keeps app
      → Keeps (handler_sign_tx sdk e b stage chunk app).1
  unfolding handler_sign_tx is_approved
  Keeps-sign_tx e b stage_data chunk app h = Keeps-data e b chunk (reset_display sdk app) h
  Keeps-sign_tx e b stage_sign chunk app h = Keeps-sign b (reset_display sdk app) h
  Keeps-sign_tx e b stage_done chunk app h =
      Keeps-answer sw_ok (ui_menu_main (clear_ctx sdk app))
        (Keeps-reset_menu sdk buttons states app)
  Keeps-sign_tx e b stage_other chunk app h = Keeps-reject app

  pub Keeps-send_token :
      (first : Bool) (b : Buffer) (app : App H)
      → Keeps app
      → Keeps (handler_send_token_data sdk first b app).1
  unfolding handler_send_token_data
  Keeps-send_token true b app h =
      Keeps-register sdk buttons states b (clear_symbols sdk (clear_ctx sdk app))
        (Keeps-cleared sdk buttons states app h)
  Keeps-send_token false b app h = Keeps-register sdk buttons states b app h

  pub Keeps-verify_token :
      (b : Buffer) (app : App H) → Keeps app → Keeps (handler_verify_token_signature sdk b app).1
  unfolding handler_verify_token_signature
  Keeps-verify_token b app h =
      let zeroed = Keeps-cleared sdk buttons states app h in
      let checked =
        Keeps-check_signature sdk buttons states b zero_token (clear_ctx sdk app) zeroed in
      grind (arith, Keeps-answer)

  Keeps-ask_token : (app : App H) → Keeps app → Keeps (ui_display_sign_token_data sdk app).1
  unfolding ui_display_sign_token_data safe io_send_sw finish_response
  Keeps-ask_token app h = ground arith

  pub Keeps-sign_token :
      (b : Buffer) (app : App H) → Keeps app → Keeps (handler_sign_token_data sdk b app).1
  unfolding handler_sign_token_data
  Keeps-sign_token b app h =
      let zeroed = Keeps-cleared sdk buttons states app h in
      grind (arith, Keeps-ask_token, Keeps-answer)

  Keeps-show_address : (app : App H) → Keeps app → Keeps (show_address sdk app).1
  unfolding show_address safe io_send_sw finish_response
  Keeps-show_address app h = ground arith

  Keeps-ask_address : (app : App H) → Keeps app → Keeps (ui_display_confirm_address sdk app).1
  unfolding ui_display_confirm_address safe io_send_sw finish_response
  Keeps-ask_address app h =
      ground
        (arith, Keeps-show_address (record app { screen = record app.screen { address = [] } }) h)

  Keeps-ask_xpub : (app : App H) → Keeps app → Keeps (ui_display_xpub_confirm sdk app).1
  unfolding ui_display_xpub_confirm safe io_send_sw finish_response
  Keeps-ask_xpub app h = ground arith

  Keeps-read_path :
      (req : RequestType) (b : Buffer) (app : App H) → Keeps app → Keeps (read_path sdk req b app).1
  unfolding read_path
  Keeps-read_path req b app h = Keeps-cleared sdk buttons states app h

  Keeps-derive_address : (app : App H) → Keeps app → Keeps (derive_address sdk app).1
  unfolding derive_address
  Keeps-derive_address app h = ground arith

  Keeps-derive_xpub : (app : App H) → Keeps app → Keeps (derive_xpub sdk app).1
  unfolding derive_xpub
  Keeps-derive_xpub app h = ground arith

  pub Keeps-address :
      (b : Buffer) (app : App H) → Keeps app → Keeps (handler_get_address sdk b app).1
  unfolding handler_get_address
  Keeps-address b app h =
      let app1 = (read_path sdk confirm_address b app).1 in
      let h1 = Keeps-read_path confirm_address b app h in
      let app2 = (derive_address sdk app1).1 in
      let h2 = Keeps-derive_address app1 h1 in
      ground (arith, Keeps-ask_address app2 h2, Keeps-answer sw_wrong_data_length app1 h1)

  pub Keeps-xpub : (b : Buffer) (app : App H) → Keeps app → Keeps (handler_get_xpub sdk b app).1
  unfolding handler_get_xpub
  Keeps-xpub b app h =
      let app1 = (read_path sdk confirm_xpub b app).1 in
      let h1 = Keeps-read_path confirm_xpub b app h in
      let app2 = (derive_xpub sdk app1).1 in
      let h2 = Keeps-derive_xpub app1 h1 in
      ground (arith, Keeps-ask_xpub app2 h2, Keeps-answer sw_wrong_data_length app1 h1)

  pub Keeps-version :
      (major minor patch : ℕ) (app : App H)
      → Keeps app
      → Keeps (handler_get_version sdk major minor patch app).1
  unfolding handler_get_version io_send_response io_send_sw finish_response
  Keeps-version major minor patch app h = ground arith

  pub Keeps-reset :
      (app : App H) → Keeps app → Keeps (ui_display_reset_token_signatures_confirm sdk app).1
  unfolding ui_display_reset_token_signatures_confirm safe
  Keeps-reset app h = ground arith

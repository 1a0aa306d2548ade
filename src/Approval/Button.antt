-- ===== src/Approval/Button.antt =====
-- The callbacks of the screens: which button approves a transaction.
use hathor_ledger_app.Prelude.{◌&&◌, ℕ, ◌≡◌, Bool, true, false, Option, none, some, arith}
use hathor_ledger_app.Result.{sw_ok, sw_deny, Result, ok, throw, fault}
use hathor_ledger_app.Sdk.{Sdk}
use hathor_ledger_app.App.{
  menu_about, App, Callback, action_confirm_xpub, action_confirm_address, action_sign_token_data,
  action_tx_confirm, confirm_output, confirm_reset_token_signatures,
}
use hathor_ledger_app.Io.{io_send_sw, io_send_response, finish_response}
use hathor_ledger_app.Storage.{generate_secret}
use hathor_ledger_app.Display.{action_exit_to_menu, send, ui_action_tx_confirm}
use hathor_ledger_app.Command.Tokens.{
  helper_send_token_data_signature, ui_action_sign_token_data, ui_confirm_reset_token_signatures,
}
use hathor_ledger_app.Command.Keys.{
  helper_send_response_xpub, ui_action_confirm_xpub, ui_action_confirm_address,
}
use hathor_ledger_app.Command.Main.{
  press_action, run_callback, finish_press, press_with, press_button,
}
use hathor_ledger_app.Display.Flows.{
  UxAction, no_action, validate, exit_to_menu, open_about, open_menu, sched_exit, action_at,
}
use hathor_ledger_app.Approval.{NotApproved, Safe, safe, NotApproved-Safe, Safe-NotApproved}
use hathor_ledger_app.Approval.Screens.{Keeps-reset, Keeps-error, Keeps-menu, Keeps-confirm_output}
use hathor_ledger_app.Approval.Commands.{Keeps-get_secret}
use hathor_ledger_app.Approval.Serve.{Keeps-exception}
use hathor_ledger_app.Approval.Handlers.{Keeps-answer}

-- The press that approves: "Approve" under the callback of the last screen of a transaction.
unfoldable pub approves : Option Callback → UxAction → Bool
approves (some action_tx_confirm) (validate true) = true
approves _ _ = false

module _ {H : Type 0} (sdk : Sdk H) (buttons states : Bool) where
  abbrev Keeps : App H → Type 0
  Keeps app = Safe buttons states app

  Keeps-sign_token_data :
      (b : Bool) (app : App H) → Keeps app → Keeps (ui_action_sign_token_data sdk b app)
  unfolding ui_action_sign_token_data helper_send_token_data_signature io_send_response io_send_sw
      finish_response
  Keeps-sign_token_data true app h =
      let app' = helper_send_token_data_signature sdk app in
      let secret = Keeps-get_secret sdk buttons states app h in
      Keeps-menu sdk buttons states app' (ground arith)
  Keeps-sign_token_data false app h = Keeps-error sdk buttons states sw_deny app

  Keeps-reset_signatures :
      (b : Bool) (app : App H) → Keeps app → Keeps (ui_confirm_reset_token_signatures sdk b app)
  unfolding ui_confirm_reset_token_signatures generate_secret
  Keeps-reset_signatures true app h =
      let app' = generate_secret sdk app in
      Keeps-menu sdk buttons states (send sdk sw_ok app')
        (Keeps-answer sdk buttons states sw_ok app' h)
  Keeps-reset_signatures false app h =
      Keeps-menu sdk buttons states (send sdk sw_deny app)
        (Keeps-answer sdk buttons states sw_deny app h)

  Keeps-confirm_xpub :
      (b : Bool) (app : App H) → Keeps app → Keeps (ui_action_confirm_xpub sdk b app)
  unfolding ui_action_confirm_xpub helper_send_response_xpub io_send_response io_send_sw
      finish_response
  Keeps-confirm_xpub true app h =
      Keeps-menu sdk buttons states (helper_send_response_xpub sdk app) (ground arith)
  Keeps-confirm_xpub false app h = Keeps-error sdk buttons states sw_deny app

  Keeps-confirm_address :
      (b : Bool) (app : App H) → Keeps app → Keeps (ui_action_confirm_address sdk b app)
  unfolding ui_action_confirm_address
  Keeps-confirm_address true app h =
      Keeps-menu sdk buttons states (send sdk sw_ok app)
        (Keeps-answer sdk buttons states sw_ok app h)
  Keeps-confirm_address false app h = Keeps-error sdk buttons states sw_deny app

  Keeps-tx_confirm :
      (app : App H) → states ≡ false → Keeps app → Keeps (ui_action_tx_confirm sdk true app)
  unfolding ui_action_tx_confirm safe io_send_sw finish_response
  Keeps-tx_confirm app any h = ground arith

  Keeps-callback :
      (callback : Callback) (choice : Bool) (app : App H)
      → (states && approves (some callback) (validate choice)) ≡ false
      → Keeps app
      → Keeps (run_callback sdk callback choice app).1
  unfolding run_callback approves
  Keeps-callback action_confirm_xpub choice app n h = Keeps-confirm_xpub choice app h
  Keeps-callback action_confirm_address choice app n h = Keeps-confirm_address choice app h
  Keeps-callback action_sign_token_data choice app n h = Keeps-sign_token_data choice app h
  Keeps-callback action_tx_confirm true app n h = Keeps-tx_confirm app (ground arith) h
  Keeps-callback action_tx_confirm false app n h =
      unfold ui_action_tx_confirm in Keeps-error sdk buttons states sw_deny app
  Keeps-callback confirm_output choice app n h =
      Keeps-confirm_output sdk buttons states choice app h
  Keeps-callback confirm_reset_token_signatures choice app n h = Keeps-reset_signatures choice app h

  module _ (cx_error major minor patch : ℕ) where
    Keeps-press :
        (r : Result (Unit {0}) × App H) (app' : App H)
        → Keeps r.1
        → finish_press sdk cx_error major minor patch r ≡ some app'
        → Keeps app'
    unfolding finish_press
    Keeps-press (ok _, app) app' h e = ground arith
    Keeps-press (throw x, app) app' h e = Keeps-exception sdk buttons states x app app' h e
    Keeps-press (fault, app) app' h e = ground arith

    Keeps-with :
        (callback : Option Callback) (choice : Bool) (app app' : App H)
        → (states && approves callback (validate choice)) ≡ false
        → Keeps app
        → press_with sdk cx_error major minor patch callback choice app ≡ some app'
        → Keeps app'
    unfolding press_with
    Keeps-with none choice app app' n h e = ground arith
    Keeps-with (some c) choice app app' n h e =
        Keeps-press _ app' (Keeps-callback c choice app n h) e

    Keeps-about : (app : App H) → Keeps app → Keeps (record app { flow = menu_about })
    unfolding safe
    Keeps-about app h = ground arith

    Keeps-action :
        (action : UxAction) (app app' : App H)
        → (states && approves app.callback action) ≡ false
        → Keeps app
        → press_action sdk cx_error major minor patch action app ≡ some app'
        → Keeps app'
    unfolding press_action action_exit_to_menu
    Keeps-action no_action app app' n h e = ground arith
    Keeps-action (validate choice) app app' n h e = Keeps-with app.callback choice app app' n h e
    Keeps-action exit_to_menu app app' n h e = ground (arith, Keeps-reset sdk buttons states app)
    Keeps-action open_about app app' n h e = ground (arith, Keeps-about app h)
    Keeps-action open_menu app app' n h e = ground (arith, Keeps-menu sdk buttons states app h)
    Keeps-action sched_exit app app' n h e = ground arith

    pub Keeps-button :
        (n : ℕ) (app app' : App H)
        → (states && approves app.callback (action_at app.flow n)) ≡ false
        → Keeps app
        → press_button sdk cx_error major minor patch n app ≡ some app'
        → Keeps app'
    unfolding press_button
    Keeps-button n app app' quiet h e = Keeps-action (action_at app.flow n) app app' quiet h e

module _ {H : Type 0} (sdk : Sdk H) (cx_error major minor patch : ℕ) where
  -- A press on any step of any screen leaves a transaction that is not approved not approved,
  -- unless it is a press on "Approve" under the callback of the screen that asks for approval: the
  -- other steps, the other callbacks and a rejection never approve.
  pub press_button-NotApproved :
      (n : ℕ) (app app' : App H)
      → approves app.callback (action_at app.flow n) ≡ false
      → NotApproved app
      → press_button sdk cx_error major minor patch n app ≡ some app'
      → NotApproved app'
  press_button-NotApproved n app app' quiet h e = Safe-NotApproved app' (
      Keeps-button sdk false true cx_error major minor patch n app app' quiet
        (NotApproved-Safe app h) e)

-- ===== src/Approval/Trace.antt =====
-- A whole run of the program: every approval goes back to the button that approves, and on each
-- screen the buttons call the function that belongs to the screen.
use Prim.{⊥, absurd}
use hathor_ledger_app.Prelude.{
  subst, zero, suc, ℕ, ◌≡◌, refl, ap, Bool, true, false, Option, none, some, List, [], ◌∷◌, ◌⊎◌,
  inl, inr, Bool-cases, arith,
}
use hathor_ledger_app.Sdk.{Sdk}
use hathor_ledger_app.App.{
  Flow, menu_main, menu_about, display_processing, display_confirm_tx, App, Callback,
  action_tx_confirm,
}
use hathor_ledger_app.Handler.{is_approved}
use hathor_ledger_app.Command.Main.{
  io_reset, start_app_main, await_command, Event, command, button, serve, serve_next, serve_all,
}
use hathor_ledger_app.Display.Flows.{UxAction, validate, action_at}
use hathor_ledger_app.Approval.{NotApproved, Safe, safe, belongs, Safe-NotApproved}
use hathor_ledger_app.Approval.Serve.{
  Keeps-exception, catch_exception-NotApproved, Keeps-start_app, Keeps-await, Keeps-serve_command,
  serve_command-NotApproved,
}
use hathor_ledger_app.Approval.Button.{approves, Keeps-button, press_button-NotApproved}

different : {b : Bool} → b ≡ true → b ≡ false → ⊥
different t f = ground arith

-- "Approve" under the callback of a transaction stands on one screen only.
approve_step :
    (flow : Flow) (n : ℕ)
    → action_at flow n ≡ validate true
    → belongs flow (some action_tx_confirm) ≡ true
    → (flow ≡ display_confirm_tx) × (n ≡ 1)
unfolding action_at belongs
approve_step display_confirm_tx zero e b = absurd (ground arith)
approve_step display_confirm_tx (suc zero) e b = (refl, refl)
approve_step display_confirm_tx (suc (suc zero)) e b = absurd (ground arith)
approve_step display_confirm_tx (suc (suc (suc n))) e b = absurd (ground arith)
approve_step menu_main zero e b = absurd (ground arith)
approve_step menu_main (suc zero) e b = absurd (ground arith)
approve_step menu_main (suc (suc zero)) e b = absurd (ground arith)
approve_step menu_main (suc (suc (suc zero))) e b = absurd (ground arith)
approve_step menu_main (suc (suc (suc (suc n)))) e b = absurd (ground arith)
approve_step menu_about zero e b = absurd (ground arith)
approve_step menu_about (suc zero) e b = absurd (ground arith)
approve_step menu_about (suc (suc n)) e b = absurd (ground arith)
approve_step display_processing zero e b = absurd (ground arith)
approve_step display_processing (suc zero) e b = absurd (ground arith)
approve_step display_processing (suc (suc n)) e b = absurd (ground arith)
approve_step flow n e b = absurd (ground arith)

approves-true :
    (callback : Option Callback) (pressed : UxAction)
    → approves callback pressed ≡ true
    → (pressed ≡ validate true) × (callback ≡ some action_tx_confirm)
unfolding approves
approves-true (some action_tx_confirm) (validate true) e = (refl, refl)
approves-true callback pressed e = absurd (ground arith)

module _ {H : Type 0} (sdk : Sdk H) (cx_error major minor patch : ℕ) (start : App H) where
  -- The run up to here.
  abbrev Runs : List Event → App H → Type 0
  Runs events app = serve_all sdk cx_error major minor patch events start ≡ some app

  -- Some event of the run was a press on the step "Approve" of the screen that asks to send the
  -- transaction.
  unfoldable pub Pressed : List Event → Type 0
  Pressed [] = ⊥
  Pressed (event ∷ events) =
      ((event ≡ button 1)
        × (app : App H) × Runs events app
        × (app.flow ≡ display_confirm_tx)
        × (app.callback ≡ some action_tx_confirm))
      ⊎ Pressed events

  belongs_step :
      (event : Event) (app app' : App H)
      → Safe true false app
      → serve sdk cx_error major minor patch event app ≡ some app'
      → Safe true false app'
  unfolding serve
  belongs_step (command bytes len) app app' h e =
      Keeps-serve_command sdk true false cx_error major minor patch bytes len app app' h e
  belongs_step io_reset app app' h e =
      Keeps-exception sdk true false sdk.exception_io_reset app app' h e
  belongs_step (button n) app app' h e =
      Keeps-button sdk true false cx_error major minor patch n app app' refl h e

  belongs_steps :
      (event : Event) (before : Option (App H)) (app : App H)
      → ((app : App H) → before ≡ some app → Safe true false app)
      → serve_next sdk cx_error major minor patch event before ≡ some app
      → Safe true false app
  unfolding serve_next
  belongs_steps event none app earlier e = ground arith
  belongs_steps event (some before) app earlier e =
      belongs_step event before app (earlier before refl) e

  Runs-Safe : (events : List Event) (app : App H) → Runs events app → Safe true false app
  unfolding serve_all
  Runs-Safe [] app run =
      let first = Keeps-start_app sdk true false start in
      ground (arith, Keeps-await sdk true false (start_app_main sdk start) first)
  Runs-Safe (event ∷ events) app run = belongs_steps event _ app (Runs-Safe events) run

  Safe-belongs : (app : App H) → Safe true false app → belongs app.flow app.callback ≡ true
  unfolding safe
  Safe-belongs app h = ground arith

  -- However the program is driven from its start on, by commands of any bytes, by presses on any steps
  -- of its screens and by resets: where a screen has buttons, they call the function that belongs to it.
  pub serve_all-belongs :
      (events : List Event) (app : App H) → Runs events app → belongs app.flow app.callback ≡ true
  serve_all-belongs events app run = Safe-belongs app (Runs-Safe events app run)

  step :
      (event : Event) (events : List Event) (before after : App H)
      → Runs events before
      → NotApproved before
      → serve sdk cx_error major minor patch event before ≡ some after
      → is_approved after.ctx.state ≡ true
      → Pressed (event ∷ events)
  unfolding serve Pressed
  step (command bytes len) events before after run h e approved = absurd (
      different approved
        (serve_command-NotApproved sdk cx_error major minor patch bytes len before after h e))
  step io_reset events before after run h e approved = absurd (
      different approved (
        catch_exception-NotApproved sdk cx_error major minor patch sdk.exception_io_reset before
          after h e))
  step (button n) events before after run h e approved =
      elim (Bool-cases (approves before.callback (action_at before.flow n))) [
        | inl agreed ↦
            let (pressed, screen) =
              approves-true before.callback (action_at before.flow n) agreed in
            let own = serve_all-belongs events before run in
            let (shown, at) =
              approve_step before.flow n pressed
                (subst (λ c. belongs before.flow c ≡ true) screen own) in
            inl (ap button at, before, run, shown, screen)
        | inr other ↦ absurd (
            different approved
              (press_button-NotApproved sdk cx_error major minor patch n before after other h e))
      ]

  steps :
      (event : Event) (events : List Event) (before : Option (App H)) (after : App H)
      → serve_all sdk cx_error major minor patch events start ≡ before
      → ((app : App H) → before ≡ some app → is_approved app.ctx.state ≡ true → Pressed events)
      → serve_next sdk cx_error major minor patch event before ≡ some after
      → is_approved after.ctx.state ≡ true
      → Pressed (event ∷ events)
  unfolding serve_next Pressed
  steps event events none after run earlier e approved = ground arith
  steps event events (some before) after run earlier e approved =
      elim (Bool-cases (is_approved before.ctx.state)) [
        | inl agreed ↦ inr (earlier before refl agreed)
        | inr other ↦ step event events before after run other e approved
      ]

  -- However the program is driven from its start on, by commands of any bytes, by presses on any steps
  -- of its screens and by resets: where it is in the state in which it signs, one of the events was a press
  -- on "Approve", on the screen that asks whether to send the transaction.
  pub serve_all-approved :
      (events : List Event) (app : App H)
      → Runs events app
      → is_approved app.ctx.state ≡ true
      → Pressed events
  unfolding serve_all
  serve_all-approved [] app run approved =
      let first = Keeps-start_app sdk false true start in
      let waits = Keeps-await sdk false true (start_app_main sdk start) first in
      ground (arith, Safe-NotApproved (await_command sdk (start_app_main sdk start)) waits)
  serve_all-approved (event ∷ events) app run approved =
      steps event events _ app refl (serve_all-approved events) run approved

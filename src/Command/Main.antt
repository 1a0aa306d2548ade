-- ===== src/Command/Main.antt =====
-- src/main.c and `io_recv_command` of src/io.c: the loop that serves commands, driven by events: a
-- command arrives, the user presses a button of the screen that is shown, or the cable is unplugged.
-- What `main` does before `app_main` is to call the SDK, but for the menu.
use hathor_ledger_app.Prelude.{
  ℕ, Bool, true, false, Option, none, some, List, [], ◌∷◌, ◌==◌, if◌then◌else◌,
}
use hathor_ledger_app.Display.Flows.{
  UxAction, no_action, validate, exit_to_menu, open_about, open_menu, sched_exit, action_at,
}
use hathor_ledger_app.Result.{Result, ok, throw, fault, sw_wrong_data_length}
use hathor_ledger_app.Sdk.{Sdk}
use hathor_ledger_app.Token.{zero_token_data}
use hathor_ledger_app.App.{
  App, zero_ctx, ready, received, waiting, Callback, action_confirm_xpub, action_confirm_address,
  action_sign_token_data, action_tx_confirm, confirm_output, confirm_reset_token_signatures,
  menu_main, menu_about,
}
use hathor_ledger_app.Io.{Ret, minus_one, code}
use hathor_ledger_app.Display.{
  send, ui_menu_main, ui_action_tx_confirm, ui_confirm_output, action_exit_to_menu,
}
use hathor_ledger_app.Command.{Command, apdu_parser}
use hathor_ledger_app.Command.Tokens.{ui_action_sign_token_data, ui_confirm_reset_token_signatures}
use hathor_ledger_app.Command.Keys.{ui_action_confirm_xpub, ui_action_confirm_address}
use hathor_ledger_app.Command.Dispatch.{apdu_dispatcher}

-- A command of so many bytes, a press of both buttons on a step of the screen, or the reset that
-- `io_event` throws while the program waits.
pub data Event : Type 0 where
  command : List ℕ → ℕ → Event
  button : ℕ → Event
  io_reset : Event

module _ {H : Type 0} (sdk : Sdk H) where
  -- The menu of `main`, and the start of `app_main`.
  unfoldable pub start_app_main : App H → App H
  start_app_main app = record app {
    output = [];
    io_state = ready;
    ctx = zero_ctx sdk;
    symbols = zero_token_data;
    flow = menu_main;
  }

  -- `io_recv_command` up to the arrival of the command. In the state WAITING it returns -1, and
  -- `app_main` returns.
  unfoldable pub await_command : App H → App H
  await_command app = elim app.io_state [
    | ready ↦ record app { io_state = received; asynch_reply = false }
    | received ↦ record app { io_state = waiting; asynch_reply = true }
    | waiting ↦ record (start_app_main app) { io_state = received; asynch_reply = false }
  ]

  -- `io_recv_command` from the arrival of the command on. A callback may have answered meanwhile.
  unfoldable pub command_arrived : App H → App H
  command_arrived app = if app.asynch_reply then record app { io_state = received } else app

  -- The loop of `main`, when `app_main` has returned or thrown: it starts again, or ends with
  -- `app_exit`, which does not return.
  abbrev pub main_loop : Result (Unit {0}) → App H → Option (App H)
  main_loop (ok _) app = some (await_command (start_app_main app))
  main_loop (throw e) app =
      if e == sdk.exception_io_reset then some (await_command (start_app_main app)) else none
  main_loop fault app = none

  -- CATCH(EXCEPTION_IO_RESET) and CATCH_OTHER(e) of `app_main`.
  abbrev pub catch_exception : ℕ → App H → Option (App H)
  catch_exception e app =
      if e == sdk.exception_io_reset
      then main_loop (throw e) app
      else some (await_command (send sdk e app))

  -- The function in `g_validate_callback`.
  unfoldable pub run_callback : Callback → Bool → App H → Result (Unit {0}) × App H
  run_callback action_confirm_xpub b app = (ok tt, ui_action_confirm_xpub sdk b app)
  run_callback action_confirm_address b app = (ok tt, ui_action_confirm_address sdk b app)
  run_callback action_sign_token_data b app = (ok tt, ui_action_sign_token_data sdk b app)
  run_callback action_tx_confirm b app = (ok tt, ui_action_tx_confirm sdk b app)
  run_callback confirm_output b app = ui_confirm_output sdk b app
  run_callback confirm_reset_token_signatures b app =
      (ok tt, ui_confirm_reset_token_signatures sdk b app)

  module _ (cx_error major minor patch : ℕ) where
    -- What the loop does with the outcome of a command: `none` is a program that has ended or
    -- that is past a fault.
    unfoldable pub finish_command : Result Ret × App H → Option (App H)
    finish_command (ok minus_one, app) = main_loop (ok tt) app
    finish_command (ok (code n), app) = some (await_command app)
    finish_command (throw e, app) = catch_exception e app
    finish_command (fault, app) = none

    -- A callback runs inside `io_exchange`; what it throws reaches the loop as well.
    unfoldable pub finish_press : Result (Unit {0}) × App H → Option (App H)
    finish_press (ok _, app) = some app
    finish_press (throw e, app) = catch_exception e app
    finish_press (fault, app) = none

    -- What the loop does with a command that `apdu_parser` accepts, and with one that it refuses.
    unfoldable pub serve_parsed : Option Command → App H → Option (App H)
    serve_parsed none app = some (await_command (send sdk sw_wrong_data_length app))
    serve_parsed (some cmd) app =
        finish_command (apdu_dispatcher sdk cx_error major minor patch cmd app)

    -- One round of the loop of `app_main`, from the arrival of a command to the next wait.
    unfoldable pub serve_command : List ℕ → ℕ → App H → Option (App H)
    serve_command bytes len app = serve_parsed (apdu_parser bytes len) (command_arrived app)

    -- The function in `g_validate_callback` runs, and what it throws reaches the loop.
    unfoldable pub press_with : Option Callback → Bool → App H → Option (App H)
    press_with none choice app = none
    press_with (some callback) choice app = finish_press (run_callback callback choice app)

    -- A press on a step of the screen that is shown. After `os_sched_exit` the program does not
    -- run.
    unfoldable pub press_action : UxAction → App H → Option (App H)
    press_action no_action app = some app
    press_action (validate choice) app = press_with app.callback choice app
    press_action exit_to_menu app = some (action_exit_to_menu sdk app)
    press_action open_about app = some (record app { flow = menu_about })
    press_action open_menu app = some (ui_menu_main app)
    press_action sched_exit app = none

    unfoldable pub press_button : ℕ → App H → Option (App H)
    press_button n app = press_action (action_at app.flow n) app

    -- What an event makes of the program.
    unfoldable pub serve : Event → App H → Option (App H)
    serve (command bytes len) app = serve_command bytes len app
    serve (button n) app = press_button n app
    serve io_reset app = catch_exception sdk.exception_io_reset app

    unfoldable pub serve_next : Event → Option (App H) → Option (App H)
    serve_next event none = none
    serve_next event (some app) = serve event app

    -- The events that arrive from the start of `app_main` on, the last one first.
    unfoldable pub serve_all : List Event → App H → Option (App H)
    serve_all [] app = some (await_command (start_app_main app))
    serve_all (event ∷ events) app = serve_next event (serve_all events app)

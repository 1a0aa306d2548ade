-- ===== src/Approval/Screens.antt =====
-- The review screens do not approve by themselves.
use hathor_ledger_app.Prelude.{some, ℕ, Bool, true, false, List, [], ◌∷◌, arith}
use hathor_ledger_app.Result.{sw_ok, sw_deny, sw_internal_error}
use hathor_ledger_app.Sdk.{Sdk}
use hathor_ledger_app.App.{App, state_parsed, confirm_output, display_tx_output}
use hathor_ledger_app.Io.{io_send_sw, finish_response}
use hathor_ledger_app.Approval.{Safe, safe}
use hathor_ledger_app.Display.{
  ui_menu_main, clear_ctx, with_tx, send, next_output, ui_display_tx_confirm,
  check_output_index_state, skip_loop, skip_change_outputs, prepare_display_output,
  ui_display_tx_outputs, ui_confirm_output,
}

module _ {H : Type 0} (sdk : Sdk H) (buttons states : Bool) where
  abbrev pub Keeps : App H → Type 0
  Keeps app = Safe buttons states app

  pub Keeps-send : (sw : ℕ) (app : App H) → Keeps app → Keeps (send sdk sw app)
  unfolding io_send_sw finish_response
  Keeps-send sw app h = ground arith

  -- Back to the menu with a cleared context.
  pub Keeps-reset : (app : App H) → Keeps (ui_menu_main (clear_ctx sdk app))
  unfolding safe
  Keeps-reset app = ground arith

  pub Keeps-error : (sw : ℕ) (app : App H) → Keeps (ui_menu_main (send sdk sw (clear_ctx sdk app)))
  unfolding safe io_send_sw finish_response
  Keeps-error sw app = ground arith

  pub Keeps-menu : (app : App H) → Keeps app → Keeps (ui_menu_main app)
  unfolding safe
  Keeps-menu app h = ground arith

  Keeps-ask_output :
      (app : App H)
      → Keeps app
      → Keeps (record app { callback = some confirm_output; flow = display_tx_output })
  unfolding safe
  Keeps-ask_output app h = ground arith

  Keeps-tx_confirm : (app : App H) → Keeps app → Keeps (ui_display_tx_confirm sdk app)
  unfolding ui_display_tx_confirm safe io_send_sw finish_response
  Keeps-tx_confirm app h = ground arith

  Keeps-parsed :
      (app : App H)
      → Keeps app
      → Keeps (record app { ctx = record app.ctx { state = state_parsed } })
  unfolding safe
  Keeps-parsed app h = ground arith

  Keeps-check : (app : App H) → Keeps app → Keeps (check_output_index_state sdk app).1
  unfolding check_output_index_state
  Keeps-check app h =
      let tx = record app.ctx.tx_info { buffer_output_len = 0; display_index = 0 } in
      let more = with_tx app tx in
      ground (
        arith,
        Keeps-tx_confirm (record app { ctx = record app.ctx { state = state_parsed } })
            (Keeps-parsed app h),
        Keeps-menu (send sdk sw_ok more) (Keeps-send sw_ok more h),
      )

  Keeps-skip_loop :
      (indices : List ℕ) (app : App H) → Keeps app → Keeps (skip_loop sdk indices app).1
  unfolding skip_loop
  Keeps-skip_loop [] app h = h
  Keeps-skip_loop (index ∷ indices) app h = ground (
    arith,
    Keeps-skip_loop indices app,
    Keeps-check (next_output app),
    Keeps-skip_loop indices (check_output_index_state sdk (next_output app)).1,
  )

  Keeps-skip : (app : App H) → Keeps app → Keeps (skip_change_outputs sdk app).1
  unfolding skip_change_outputs
  Keeps-skip app h = grind (arith, Keeps-skip_loop)

  Keeps-prepare : (app : App H) → Keeps app → Keeps (prepare_display_output sdk app).1
  unfolding prepare_display_output
  Keeps-prepare app h =
      let app1 = (check_output_index_state sdk app).1 in
      ground (
        arith,
        Keeps-check app,
        Keeps-skip app1,
        Keeps-error sw_internal_error (skip_change_outputs sdk app1).1,
      )

  pub Keeps-display_outputs : (app : App H) → Keeps app → Keeps (ui_display_tx_outputs sdk app).1
  unfolding ui_display_tx_outputs
  Keeps-display_outputs app h =
      let prepared = Keeps-prepare app h in
      ground (arith, Keeps-ask_output (prepare_display_output sdk app).1)

  pub Keeps-confirm_output :
      (b : Bool) (app : App H) → Keeps app → Keeps (ui_confirm_output sdk b app).1
  unfolding ui_confirm_output
  Keeps-confirm_output true app h = ground (
    arith,
    Keeps-skip (next_output app),
    Keeps-display_outputs (skip_change_outputs sdk (next_output app)).1,
  )
  Keeps-confirm_output false app h = Keeps-error sw_deny app

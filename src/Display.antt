-- ===== src/Display.antt =====
-- src/ui/display.c: the screens on which the user reviews a transaction. The buttons call
-- `g_validate_callback`; `flow` is the screen flow that is shown.
pub mod Render
pub mod Flows
pub mod Sort
pub mod Indices
pub mod Skip
pub mod Address
pub mod Shown
pub mod Last
pub mod Past
pub mod Review
pub mod Approve
pub mod Progress
use hathor_ledger_app.Prelude.{
  ℕ, zero, suc, ◌+◌, ◌-◌, ◌%◌, Bool, true, false, not, ◌||◌, Option, none, some, List, [], ◌∷◌,
  get_or, set, take, length, map, ltb, leb, ◌==◌, if◌then◌else◌,
}
use hathor_ledger_app.Result.{
  Result, ok, throw, fault, sw_ok, sw_deny, sw_bad_state, sw_internal_error,
}
use hathor_ledger_app.Sdk.{Sdk}
use hathor_ledger_app.App.{
  App, GlobalCtx, TxInfo, ChangeOutputInfo, State, state_none, state_recv_data, state_parsed,
  state_approved, RequestType, confirm_address, confirm_xpub, confirm_transaction, zero_ctx,
  zero_output, outputs_cap, Callback, action_tx_confirm, confirm_output, menu_main,
  display_processing, display_confirm_tx, display_tx_output, Screen,
}
use hathor_ledger_app.Bytes.{at}
use hathor_ledger_app.Io.{io_send_sw}
use Render.{render}

-- The inner loop of `inplace_selection_sort`: the position of the least element from `position` and
-- `j` on.
unfoldable pub least_position : ℕ → ℕ → ℕ → List ℕ → ℕ
least_position zero j position list = position
least_position (suc rounds) j position list =
    least_position rounds (j + 1) (if ltb (at list j) (at list position) then j else position) list

unfoldable pub sort_loop : ℕ → ℕ → ℕ → List ℕ → List ℕ
unfolding least_position
sort_loop zero i len list = list
sort_loop (suc rounds) i len list =
    let position = least_position (len - (i + 1)) (i + 1) i list in
    sort_loop rounds (i + 1) len
      (if position == i then list else set (set list position (at list i)) i (at list position))

-- Called with 0 < len.
unfoldable pub inplace_selection_sort : ℕ → List ℕ → List ℕ
unfolding sort_loop
inplace_selection_sort len list = sort_loop (len - 1) 0 len list

unfoldable pub is_confirm_transaction : RequestType → Bool
is_confirm_transaction confirm_transaction = true
is_confirm_transaction _ = false

unfoldable pub is_parsed : State → Bool
is_parsed state_parsed = true
is_parsed _ = false

module _ {H : Type 0} where
  abbrev pub with_tx : App H → TxInfo H → App H
  with_tx app tx = record app { ctx = record app.ctx { tx_info = tx } }

  -- ui_menu_main
  abbrev pub ui_menu_main : App H → App H
  ui_menu_main app = record app { flow = menu_main }

  -- display_index++; confirmed_outputs++
  abbrev pub next_output : App H → App H
  next_output app =
      let tx = app.ctx.tx_info in
      with_tx app (record tx {
        display_index = (tx.display_index + 1) % 256;
        confirmed_outputs = (tx.confirmed_outputs + 1) % 256;
      })

module _ {H : Type 0} (sdk : Sdk H) where
  -- explicit_bzero(&G_context, sizeof(G_context))
  abbrev pub clear_ctx : App H → App H
  clear_ctx app = record app { ctx = zero_ctx sdk }

  -- io_send_sw where its result is not used.
  abbrev pub send : ℕ → App H → App H
  send sw app = (io_send_sw sdk sw app).1

  unfoldable pub action_exit_to_menu : App H → App H
  action_exit_to_menu app = ui_menu_main (clear_ctx app)

  unfoldable pub ui_action_tx_confirm : Bool → App H → App H
  ui_action_tx_confirm true app =
      let app' = send sw_ok (record app { ctx = record app.ctx { state = state_approved } }) in
      record app' { flow = display_processing }
  ui_action_tx_confirm false app = ui_menu_main (send sw_deny (clear_ctx app))

  unfoldable pub ui_display_tx_confirm : App H → App H
  unfolding is_confirm_transaction is_parsed
  ui_display_tx_confirm app =
      if not (is_confirm_transaction app.ctx.req_type) || not (is_parsed app.ctx.state)
      then ui_menu_main (send sw_bad_state (clear_ctx app))
      else record app { callback = some action_tx_confirm; flow = display_confirm_tx }

  unfoldable pub check_output_index_state : App H → Bool × App H
  check_output_index_state app =
      let tx = app.ctx.tx_info in
      if tx.confirmed_outputs == tx.outputs_len
      then (
        true,
        ui_display_tx_confirm (record app { ctx = record app.ctx { state = state_parsed } }),
      )
      else if tx.display_index == tx.buffer_output_len
      then (
        true,
        ui_menu_main
            (send sw_ok (with_tx app (record tx { buffer_output_len = 0; display_index = 0 }))),
      )
      else (false, app)

  -- The loop over the sorted change indices.
  unfoldable pub skip_loop : List ℕ → App H → Bool × App H
  skip_loop [] app = (false, app)
  skip_loop (index ∷ indices) app =
      if app.ctx.tx_info.confirmed_outputs == index
      then (let (shown, app') = check_output_index_state (next_output app) in
          let rest = skip_loop indices app' in if shown then (true, app') else rest)
      else skip_loop indices app

  unfoldable pub skip_change_outputs : App H → Bool × App H
  skip_change_outputs app =
      let tx = app.ctx.tx_info in
      if tx.change_len == 0
      then (false, app)
      else skip_loop
          (inplace_selection_sort tx.change_len
            (map (λ (c : ChangeOutputInfo). c.index) (take tx.change_len tx.change_info)))
          app

  -- The strings for `outputs[display_index]`, which is read past the end of the array where the index
  -- is out of range.
  unfoldable pub output_screen : App H → Result (Option Screen)
  output_screen app =
      let tx = app.ctx.tx_info in
      if leb outputs_cap tx.display_index
      then fault
      else render sdk app.screen app.symbols tx (get_or tx.outputs tx.display_index zero_output)

  unfoldable pub prepare_display_output : App H → Result Bool × App H
  prepare_display_output app =
      let (shown, app1) = check_output_index_state app in
      let (skipped, app2) = skip_change_outputs app1 in
      if shown
      then (ok true, app1)
      else if skipped
      then (ok true, app2)
      else elim (output_screen app2) [
        | ok (some screen) ↦ (ok false, record app2 { screen = screen })
        | ok none ↦ (ok true, ui_menu_main (send sw_internal_error (clear_ctx app2)))
        | throw e ↦ (throw e, app2)
        | fault ↦ (fault, app2)
      ]

  -- The result 0 is `ok tt`.
  unfoldable pub ui_display_tx_outputs : App H → Result (Unit {0}) × App H
  ui_display_tx_outputs app =
      let (r, app') = prepare_display_output app in
      elim r [
        | ok true ↦ (ok tt, app')
        | ok false ↦
            (ok tt, record app' { callback = some confirm_output; flow = display_tx_output })
        | throw e ↦ (throw e, app')
        | fault ↦ (fault, app')
      ]

  unfoldable pub ui_confirm_output : Bool → App H → Result (Unit {0}) × App H
  ui_confirm_output true app =
      let (skipped, app') = skip_change_outputs (next_output app) in
      let rest = ui_display_tx_outputs app' in if skipped then (ok tt, app') else rest
  ui_confirm_output false app = (ok tt, ui_menu_main (send sw_deny (clear_ctx app)))

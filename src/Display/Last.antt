-- ===== src/Display/Last.antt =====
-- `ui_confirm_output` of src/ui/display.c in front of a last output that is change.
use Prim.{absurd}
use hathor_ledger_app.Prelude.{
  ℕ, ◌+◌, ◌≤◌, ◌<◌, ◌≡◌, refl, sym, subst, true, some, List, [], ◌∷◌, length, ◌==◌, arith, inl, inr,
  Bool-cases,
}
use hathor_ledger_app.Result.{ok}
use hathor_ledger_app.Sdk.{Sdk}
use hathor_ledger_app.App.{App, confirm_transaction, action_tx_confirm, display_confirm_tx}
use hathor_ledger_app.Display.{
  is_confirm_transaction, is_parsed, ui_display_tx_confirm, next_output, check_output_index_state,
  skip_loop, skip_change_outputs, inplace_selection_sort, ui_confirm_output,
}
use hathor_ledger_app.Display.Sort.{is_at, count}
use hathor_ledger_app.Display.Indices.{confirmed, change_indices, no_indices, count-sorted}

module _ {H : Type 0} (sdk : Sdk H) where
  -- The screen asks whether to send the transaction.
  abbrev pub AsksToSend : App H → Type 0
  AsksToSend app = (app.flow ≡ display_confirm_tx) × (app.callback ≡ some action_tx_confirm)

  all_confirmed :
      (app : App H)
      → app.ctx.req_type ≡ confirm_transaction
      → confirmed app ≡ app.ctx.tx_info.outputs_len
      → ((check_output_index_state sdk app).0 ≡ true)
        × AsksToSend (check_output_index_state sdk app).1
  unfolding check_output_index_state ui_display_tx_confirm is_confirm_transaction is_parsed
  all_confirmed app req all =
      let e : confirmed app == app.ctx.tx_info.outputs_len ≡ true = ground arith in
      rw (e, req) (refl, (refl, refl))

  skip_loop-last :
      (indices : List ℕ) (app : App H)
      → app.ctx.req_type ≡ confirm_transaction
      → confirmed app + 1 ≡ app.ctx.tx_info.outputs_len
      → app.ctx.tx_info.outputs_len < 256
      → 0 < count (confirmed app) indices
      → ((skip_loop sdk indices app).0 ≡ true) × AsksToSend (skip_loop sdk indices app).1
  unfolding skip_loop is_at
  skip_loop-last [] app req last small listed = absurd (omega arith)
  skip_loop-last (index ∷ indices) app req last small listed =
      elim (Bool-cases (confirmed app == index)) [
        | inl here ↦
            let done = all_confirmed (next_output app) req (omega arith) in
            rw (here, done.0) (refl, done.1)
        | inr other ↦ rw other (skip_loop-last indices app req last small (ground arith))
      ]

  skip_change_outputs-last :
      (app : App H)
      → app.ctx.req_type ≡ confirm_transaction
      → confirmed app + 1 ≡ app.ctx.tx_info.outputs_len
      → app.ctx.tx_info.outputs_len < 256
      → app.ctx.tx_info.change_len ≤ length app.ctx.tx_info.change_info
      → 0 < count (confirmed app) (change_indices app)
      → ((skip_change_outputs sdk app).0 ≡ true) × AsksToSend (skip_change_outputs sdk app).1
  unfolding skip_change_outputs
  skip_change_outputs-last app req last small fits listed =
      let tx = app.ctx.tx_info in
      let len = tx.change_len in
      let indices = change_indices app in
      elim (Bool-cases (len == 0)) [
        | inl no_change ↦ absurd (omega (arith, no_indices app (confirmed app) no_change))
        | inr some_change ↦
            let counts = count-sorted app fits some_change (confirmed app) in
            rw some_change
              (skip_loop-last (inplace_selection_sort len indices) app req last small (omega arith))
      ]

  -- While a transaction is reviewed, with the change information within its array: if the user
  -- approves an output, and the one behind it is the last and is named as change, then the program
  -- asks whether to send the transaction. This is so whatever of the transaction has been decoded:
  -- that last output may not have arrived yet.
  pub ui_confirm_output-last :
      (app : App H)
      → app.ctx.req_type ≡ confirm_transaction
      → confirmed app + 2 ≡ app.ctx.tx_info.outputs_len
      → app.ctx.tx_info.outputs_len < 256
      → app.ctx.tx_info.change_len ≤ length app.ctx.tx_info.change_info
      → 0 < count (confirmed app + 1) (change_indices app)
      → ((ui_confirm_output sdk true app).0 ≡ ok tt) × AsksToSend (ui_confirm_output sdk true app).1
  unfolding ui_confirm_output
  ui_confirm_output-last app req last small fits listed =
      let next = next_output app in
      let moved : confirmed next ≡ confirmed app + 1 = omega arith in
      let listed' : 0 < count (confirmed next) (change_indices next) =
        subst (λ k. 0 < count k (change_indices app)) (sym moved) listed in
      let done = skip_change_outputs-last next req (omega arith) small fits listed' in
      rw done.0 (refl, done.1)

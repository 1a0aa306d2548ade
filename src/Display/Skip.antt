-- ===== src/Display/Skip.antt =====
-- `skip_change_outputs` of src/ui/display.c: which outputs the screens leave out.
use Prim.{absurd}
use hathor_ledger_app.Prelude.{
  same_or_not, ℕ, suc, ◌≤◌, ◌<◌, ◌≡◌, ◌≢◌, inl, inr, refl, sym, subst, ap, Bool, false, not, ◌||◌,
  List, [], ◌∷◌, length, All, ◌==◌, arith, Bool-cases,
}
use hathor_ledger_app.Sdk.{Sdk}
use hathor_ledger_app.App.{App, zero_tx_info, state_parsed}
use hathor_ledger_app.Io.{io_send_sw, finish_response}
use mathlib.Core.Bool.{true≢false}
use hathor_ledger_app.Result.{sw_ok, sw_bad_state}
use hathor_ledger_app.Display.{
  ui_menu_main, send, with_tx, clear_ctx, is_confirm_transaction, is_parsed, ui_display_tx_confirm,
  next_output, check_output_index_state, skip_loop, skip_change_outputs, inplace_selection_sort,
}
use hathor_ledger_app.Display.Sort.{Ascending, is_at, count}
use hathor_ledger_app.Display.Indices.{
  confirmed, change_indices, no_indices, count-sorted, sorted-Ascending,
}

is_at-same : (x c : ℕ) → x ≡ c → is_at x c ≡ 1
unfolding is_at
is_at-same x c h = ground arith

is_at-ne : (x c : ℕ) → x ≢ c → is_at x c ≡ 0
unfolding is_at
is_at-ne x c h = ground arith

count-above : (c x : ℕ) (xs : List ℕ) → c < x → All (λ y. x ≤ y) xs → count c xs ≡ 0
unfolding is_at
count-above c x [] h above = refl
count-above c x (y ∷ ys) h above = ground (arith, above.0, count-above c x ys h above.1)

module _ {H : Type 0} where
  -- The state is before the last output, and there are at most 255.
  abbrev pub Pending : App H → Type 0
  Pending app =
      (app.ctx.tx_info.confirmed_outputs < app.ctx.tx_info.outputs_len)
      × (app.ctx.tx_info.outputs_len < 256)

module _ {H : Type 0} (sdk : Sdk H) where
  -- Between the two states only outputs of the list have been passed, and the result false leaves
  -- the screens at an output that is not of the list.
  abbrev pub Skipped : List ℕ → App H → Bool × App H → Type 0
  Skipped indices app (shown, app') =
      ((k : ℕ) → confirmed app ≤ k → k < confirmed app' → 0 < count k indices)
      × (shown ≡ false
          → Pending app' × (confirmed app ≤ confirmed app') × (count (confirmed app') indices ≡ 0))

  confirmed-send : (sw : ℕ) (app : App H) → confirmed (send sdk sw app) ≡ confirmed app
  unfolding io_send_sw finish_response
  confirmed-send sw app = ground arith

  confirmed-tx_confirm : (app : App H) → confirmed (ui_display_tx_confirm sdk app) ≤ confirmed app
  unfolding ui_display_tx_confirm zero_tx_info
  confirmed-tx_confirm app =
      let menu = ui_menu_main (send sdk sw_bad_state (clear_ctx sdk app)) in
      let reset : confirmed menu ≡ 0 = confirmed-send sw_bad_state (clear_ctx sdk app) in
      elim (Bool-cases
        (not (is_confirm_transaction app.ctx.req_type) || not (is_parsed app.ctx.state))) [
          | inl bad ↦
              let step : ui_display_tx_confirm sdk app ≡ menu = rw bad refl in
              omega (arith, ap confirmed step, reset)
          | inr good ↦ rw good (omega arith)
        ]

  pub check-output :
      (app : App H)
      → (confirmed (check_output_index_state sdk app).1 ≤ confirmed app)
        × ((check_output_index_state sdk app).0 ≡ false
            → ((check_output_index_state sdk app).1 ≡ app)
              × (confirmed app ≢ app.ctx.tx_info.outputs_len))
  unfolding check_output_index_state
  check-output app =
      let tx = app.ctx.tx_info in
      let parsed = record app { ctx = record app.ctx { state = state_parsed } } in
      let emptied = with_tx app (record tx { buffer_output_len = 0; display_index = 0 }) in
      elim (Bool-cases (tx.confirmed_outputs == tx.outputs_len)) [
        | inl all ↦ rw all (confirmed-tx_confirm parsed, λ e. absurd (true≢false e))
        | inr more ↦ elim (Bool-cases (tx.display_index == tx.buffer_output_len)) [
          | inl ended ↦
              rw (more, ended)
                (omega (arith, confirmed-send sw_ok emptied), λ e. absurd (true≢false e))
          | inr left ↦ rw (more, left) (omega arith, λ e. (refl, ground arith))
        ]
      ]

  Skipped-pass :
      (index : ℕ) (indices : List ℕ) (app : App H) (r : Bool × App H)
      → Ascending (index ∷ indices)
      → confirmed app ≢ index
      → Skipped indices app r
      → Skipped (index ∷ indices) app r
  Skipped-pass index indices app (shown, app') (above, a) other (passed, stays) = (
    λ k h l. omega (arith, passed k h l),
    λ e.
        let (pending, up, none_left) = stays e in
        (
          pending,
          up,
          elim (same_or_not index (confirmed app')) [
            | inl same ↦
                let none_here = count-above (confirmed app) index indices (omega arith) above in
                absurd (omega (arith, passed (confirmed app) (omega arith) (omega arith)))
            | inr differ ↦ omega (arith, is_at-ne index (confirmed app') differ)
          ],
        ),
  )

  Skipped-here :
      (index : ℕ) (indices : List ℕ) (app app1 : App H) (r : Bool × App H)
      → confirmed app ≡ index
      → confirmed app1 ≡ suc index
      → Skipped indices app1 r
      → Skipped (index ∷ indices) app r
  Skipped-here index indices app app1 (shown, app') here next (passed, stays) = (
    λ k h l. elim (same_or_not index k) [
      | inl same ↦ omega (arith, is_at-same index k same)
      | inr differ ↦ omega (arith, passed k (omega arith) l)
    ],
    λ e.
        let (pending, up, none_left) = stays e in
        (pending, omega arith, omega (arith, is_at-ne index (confirmed app') (omega arith))),
  )

  skip_loop-Skipped :
      (indices : List ℕ) (app : App H)
      → Ascending indices
      → Pending app
      → Skipped indices app (skip_loop sdk indices app)
  unfolding skip_loop
  skip_loop-Skipped [] app a p = (λ k h l. absurd (omega arith), λ e. (p, omega arith, refl))
  skip_loop-Skipped (index ∷ indices) app a p =
      let app1 = next_output app in
      elim (Bool-cases (confirmed app == index)) [
        | inl here ↦
            let at_index : confirmed app ≡ index = ground arith in
            let next : confirmed app1 ≡ suc index = omega arith in
            let check = check-output app1 in
            elim (Bool-cases (check_output_index_state sdk app1).0) [
              | inl shown ↦
                  rw (here, shown)
                    (
                      λ k h l. omega (arith, is_at-same index k (omega (arith, check.0))),
                      λ e. absurd (true≢false e),
                    )
              | inr not_shown ↦
                  let (same, not_all) = check.1 not_shown in
                  let step : skip_loop sdk (index ∷ indices) app ≡ skip_loop sdk indices app1 =
                    rw (here, not_shown, same) refl in
                  let rest = skip_loop-Skipped indices app1 a.1 (omega arith, p.1) in
                  subst (λ r. Skipped (index ∷ indices) app r) (sym step)
                    (Skipped-here index indices app app1 (skip_loop sdk indices app1) at_index next
                      rest)
            ]
        | inr other ↦
            let step : skip_loop sdk (index ∷ indices) app ≡ skip_loop sdk indices app =
              rw other refl in
            subst (λ r. Skipped (index ∷ indices) app r) (sym step)
              (Skipped-pass index indices app (skip_loop sdk indices app) a (ground arith)
                (skip_loop-Skipped indices app a.1 p))
      ]

  pub skip_change_outputs-Skipped :
      (app : App H)
      → Pending app
      → app.ctx.tx_info.change_len ≤ length app.ctx.tx_info.change_info
      → Skipped (change_indices app) app (skip_change_outputs sdk app)
  unfolding skip_change_outputs
  skip_change_outputs-Skipped app p fits =
      let tx = app.ctx.tx_info in
      let len = tx.change_len in
      elim (Bool-cases (len == 0)) [
        | inl no_change ↦
            let empty = no_indices app (confirmed app) no_change in
            rw no_change (λ k h l. absurd (omega arith), λ e. (p, omega arith, empty))
        | inr some_change ↦
            let sorted = inplace_selection_sort len (change_indices app) in
            let counts = count-sorted app fits some_change in
            let rest = skip_loop-Skipped sorted app (sorted-Ascending app fits some_change) p in
            rw some_change (
              λ k h l. omega (arith, rest.0 k h l, counts k),
              λ e.
                  let (pending, up, none_left) = rest.1 e in
                  (pending, up, omega (arith, counts (confirmed (skip_loop sdk sorted app).1))),
            )
      ]

  -- In a state before the last output, with the change information within its array, every output
  -- that `skip_change_outputs` passes is a change output.
  pub skip_change_outputs-change :
      (app : App H) (k : ℕ)
      → Pending app
      → app.ctx.tx_info.change_len ≤ length app.ctx.tx_info.change_info
      → confirmed app ≤ k
      → k < confirmed (skip_change_outputs sdk app).1
      → 0 < count k (change_indices app)
  skip_change_outputs-change app k p fits h l = (skip_change_outputs-Skipped app p fits).0 k h l

  -- In a state before the last output, with the change information within its array, the output
  -- that is next when `skip_change_outputs` returns false is there and is no change output.
  pub skip_change_outputs-stops :
      (app : App H)
      → Pending app
      → app.ctx.tx_info.change_len ≤ length app.ctx.tx_info.change_info
      → (skip_change_outputs sdk app).0 ≡ false
      → Pending (skip_change_outputs sdk app).1
        × (confirmed app ≤ confirmed (skip_change_outputs sdk app).1)
        × (count (confirmed (skip_change_outputs sdk app).1) (change_indices app) ≡ 0)
  skip_change_outputs-stops app p fits e = (skip_change_outputs-Skipped app p fits).1 e

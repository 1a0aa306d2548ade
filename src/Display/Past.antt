-- ===== src/Display/Past.antt =====
-- `skip_change_outputs` of src/ui/display.c behind the outputs that wait.
use Prim.{absurd}
use hathor_ledger_app.Prelude.{
  ℕ, ◌+◌, ◌%◌, ◌≤◌, ◌<◌, ◌≡◌, refl, ap, ◌∙◌, false, List, [], ◌∷◌, length, ◌==◌, arith, inl, inr,
  Bool-cases,
}
use hathor_ledger_app.Sdk.{Sdk}
use hathor_ledger_app.App.{App}
use hathor_ledger_app.Display.{
  next_output, check_output_index_state, skip_loop, skip_change_outputs, inplace_selection_sort,
}
use hathor_ledger_app.Display.Sort.{is_at, count}
use hathor_ledger_app.Display.Indices.{confirmed, change_indices, no_indices, count-sorted}

module _ {H : Type 0} (sdk : Sdk H) where
  pub skip_loop-none :
      (indices : List ℕ) (app : App H)
      → count (confirmed app) indices ≡ 0
      → skip_loop sdk indices app ≡ (false, app)
  unfolding skip_loop is_at
  skip_loop-none [] app h = refl
  skip_loop-none (index ∷ indices) app h =
      let other : confirmed app == index ≡ false = ground arith in
      rw other (skip_loop-none indices app (ground arith))

  -- All outputs that wait have been shown, the next one is change, and the one behind it is there
  -- and is no change.
  pub record AtUndecodedChange (app : App H) : Type 0 where
    pub all_shown : app.ctx.tx_info.display_index ≡ app.ctx.tx_info.buffer_output_len
    pub few : app.ctx.tx_info.buffer_output_len < 255
    pub more : confirmed app + 1 < app.ctx.tx_info.outputs_len
    pub outputs_len : app.ctx.tx_info.outputs_len < 256
    pub fits : app.ctx.tx_info.change_len ≤ length app.ctx.tx_info.change_info
    pub change : 0 < count (confirmed app) (change_indices app)
    pub no_change : count (confirmed app + 1) (change_indices app) ≡ 0

  not_shown :
      (app : App H)
      → AtUndecodedChange app
      → check_output_index_state sdk (next_output app) ≡ (false, next_output app)
  unfolding check_output_index_state
  not_shown app here =
      let tx = app.ctx.tx_info in
      let more : (tx.confirmed_outputs + 1) % 256 == tx.outputs_len ≡ false =
        ground (arith, here.more, here.outputs_len) in
      let past : (tx.display_index + 1) % 256 == tx.buffer_output_len ≡ false =
        ground (arith, here.all_shown, here.few) in
      rw (more, past) refl

  skip_loop-past :
      (indices : List ℕ) (app : App H)
      → AtUndecodedChange app
      → 0 < count (confirmed app) indices
      → count (confirmed app + 1) indices ≡ 0
      → skip_loop sdk indices app ≡ (false, next_output app)
  unfolding skip_loop is_at
  skip_loop-past [] app here listed behind = absurd (omega arith)
  skip_loop-past (index ∷ indices) app here listed behind =
      elim (Bool-cases (confirmed app == index)) [
        | inl found ↦
            let next : confirmed (next_output app) ≡ confirmed app + 1 =
              omega (arith, here.more, here.outputs_len) in
            let rest : count (confirmed app + 1) indices ≡ 0 = ground arith in
            rw (found, not_shown app here)
              (skip_loop-none indices (next_output app) (ap (λ k. count k indices) next ∙ rest))
        | inr other ↦ rw other (skip_loop-past indices app here (ground arith) (ground arith))
      ]

  -- All outputs that wait have been shown, the next one is change, and the one behind it is there and
  -- is no change: `skip_change_outputs` goes on past the outputs that wait, asks for no more data,
  -- and leaves the screens at a place of the array to which no output of this chunk has been written.
  pub skip_change_outputs-past :
      (app : App H)
      → AtUndecodedChange app
      → ((skip_change_outputs sdk app).0 ≡ false)
        × ((skip_change_outputs sdk app).1.ctx.tx_info.display_index
            ≡ (skip_change_outputs sdk app).1.ctx.tx_info.buffer_output_len + 1)
  unfolding skip_change_outputs
  skip_change_outputs-past app here =
      let tx = app.ctx.tx_info in
      let len = tx.change_len in
      let indices = change_indices app in
      elim (Bool-cases (len == 0)) [
        | inl no_change ↦
            absurd (omega (arith, here.change, no_indices app (confirmed app) no_change))
        | inr some_change ↦
            let counts = count-sorted app here.fits some_change in
            let past =
              skip_loop-past (inplace_selection_sort len indices) app here
                (omega (arith, counts (confirmed app), here.change))
                (counts (confirmed app + 1) ∙ here.no_change) in
            rw (some_change, past) (refl, omega (arith, here.all_shown, here.few))
      ]

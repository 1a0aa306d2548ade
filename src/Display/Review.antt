-- ===== src/Display/Review.antt =====
-- The review of the outputs (src/ui/display.c): what one step of the screens leaves.
use Prim.{absurd}
use hathor_ledger_app.Prelude.{
  ℕ, ◌≤◌, ◌<◌, ◌≡◌, ◌⊎◌, refl, sym, subst, Bool, true, false, List, [], ◌∷◌, length, map, take,
  ◌==◌, All, arith, inl, inr, Bool-cases,
}
use mathlib.Core.Bool.{true≢false}
use hathor_ledger_app.Sdk.{Sdk}
use hathor_ledger_app.App.{App, Flow, display_tx_output, ChangeOutputInfo}
use hathor_ledger_app.Display.{
  next_output, check_output_index_state, ui_display_tx_confirm, skip_loop, skip_change_outputs,
  inplace_selection_sort,
}
use hathor_ledger_app.Display.Sort.{count, is_at}
use hathor_ledger_app.Display.Indices.{confirmed, change_indices}
use hathor_ledger_app.Display.Skip.{check-output, skip_change_outputs-Skipped}

unfoldable pub is_output_screen : Flow → Bool
is_output_screen display_tx_output = true
is_output_screen _ = false

pub count-named : (n : ℕ) (indices : List ℕ) → All (λ i. i < n) indices → count n indices ≡ 0
unfolding is_at
count-named n [] h = refl
count-named n (i ∷ indices) h = ground (arith, h.0, count-named n indices h.1)

abbrev pub Settings : Type 0
Settings = ℕ × ℕ × List ChangeOutputInfo

-- The change information is within its array and names outputs of the transaction.
pub record ChangeNamed (s : Settings) : Type 0 where
  pub outputs_len : s.0 < 256
  pub fits : s.1 ≤ length s.2
  pub named : All (λ i. i < s.0) (map (λ (c : ChangeOutputInfo). c.index) (take s.1 s.2))

module _ {H : Type 0} where
  -- What the review does not change.
  abbrev pub settings : App H → Settings
  settings app =
      (app.ctx.tx_info.outputs_len, app.ctx.tx_info.change_len, app.ctx.tx_info.change_info)

  -- The screens are at an output of the transaction, and the change information names outputs of
  -- the transaction.
  pub record InReview (app : App H) : Type 0 where
    pub before_last : confirmed app < app.ctx.tx_info.outputs_len
    pub change : ChangeNamed (settings app)

  -- The user sees no output any more.
  abbrev pub Left : App H → Type 0
  Left app = is_output_screen app.flow ≡ false

  -- The review goes on, not before the output where it was.
  unfoldable pub Stay : App H → App H → Type 0
  Stay app app' = InReview app' × (confirmed app ≤ confirmed app') × (settings app' ≡ settings app)

module _ {H : Type 0} (sdk : Sdk H) where
  pub check-Left :
      (app : App H)
      → (check_output_index_state sdk app).0 ≡ true
      → Left (check_output_index_state sdk app).1
  unfolding check_output_index_state ui_display_tx_confirm is_output_screen
  check-Left app e = ground arith

  skip_loop-settings :
      (indices : List ℕ) (app : App H)
      → ((skip_loop sdk indices app).0 ≡ true → Left (skip_loop sdk indices app).1)
        × ((skip_loop sdk indices app).0 ≡ false
            → settings (skip_loop sdk indices app).1 ≡ settings app)
  unfolding skip_loop
  skip_loop-settings [] app = (λ e. absurd (true≢false (sym e)), λ e. refl)
  skip_loop-settings (index ∷ indices) app =
      let app1 = next_output app in
      elim (Bool-cases (confirmed app == index)) [
        | inl here ↦ elim (Bool-cases (check_output_index_state sdk app1).0) [
          | inl shown ↦ rw (here, shown) (λ e. check-Left app1 shown, λ e. absurd (true≢false e))
          | inr not_shown ↦
              let same = ((check-output sdk app1).1 not_shown).0 in
              rw (here, not_shown, same) (skip_loop-settings indices app1)
        ]
        | inr other ↦ rw other (skip_loop-settings indices app)
      ]

  skip_change_outputs-settings :
      (app : App H)
      → ((skip_change_outputs sdk app).0 ≡ true → Left (skip_change_outputs sdk app).1)
        × ((skip_change_outputs sdk app).0 ≡ false
            → settings (skip_change_outputs sdk app).1 ≡ settings app)
  unfolding skip_change_outputs
  skip_change_outputs-settings app = elim (Bool-cases (app.ctx.tx_info.change_len == 0)) [
    | inl no_change ↦ rw no_change (λ e. absurd (true≢false (sym e)), λ e. refl)
    | inr some_change ↦ rw some_change (
        skip_loop-settings (inplace_selection_sort app.ctx.tx_info.change_len (change_indices app))
          app)
  ]

  pub skip-step :
      (app : App H)
      → InReview app
      → ((skip_change_outputs sdk app).0 ≡ true) × Left (skip_change_outputs sdk app).1
        ⊎ ((skip_change_outputs sdk app).0 ≡ false) × Stay app (skip_change_outputs sdk app).1
  unfolding Stay
  skip-step app here =
      let (leaves, keeps) = skip_change_outputs-settings app in
      elim (Bool-cases (skip_change_outputs sdk app).0) [
        | inl shown ↦ inl (shown, leaves shown)
        | inr going_on ↦
            let same = keeps going_on in
            let (pending, up, none_left) =
              (skip_change_outputs-Skipped sdk app (here.before_last, here.change.outputs_len)
                  here.change.fits).1
                going_on in
            let still : InReview (skip_change_outputs sdk app).1 = record {
              before_last = pending.0;
              change = subst ChangeNamed (sym same) here.change;
            } in
            inr (going_on, (still, up, same))
      ]

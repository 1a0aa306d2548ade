-- ===== src/Display/Progress.antt =====
-- The review of the outputs (src/ui/display.c) comes to its end.
use Prim.{absurd}
use hathor_ledger_app.Prelude.{
  ℕ, zero, suc, ◌+◌, ◌≤◌, ◌≡◌, ◌⊎◌, refl, sym, ap, ◌∙◌, true, if◌then◌else◌, arith, inl, inr,
  Bool-cases,
}
use mathlib.Core.Bool.{true≢false}
use hathor_ledger_app.Result.{Result, ok, throw, fault}
use hathor_ledger_app.Sdk.{Sdk}
use hathor_ledger_app.App.{App}
use hathor_ledger_app.Display.{ui_confirm_output}
use hathor_ledger_app.Display.Indices.{confirmed}
use hathor_ledger_app.Display.Review.{is_output_screen, Settings, InReview}
use hathor_ledger_app.Display.Approve.{Ends, Nearer, confirm-Nearer}

module _ {H : Type 0} (sdk : Sdk H) where
  -- The user approves output after output, up to so many times, as long as the screens show one.
  unfoldable pub approvals : ℕ → App H → Result (Unit {0}) × App H
  unfolding is_output_screen
  approvals zero app = (ok tt, app)
  approvals (suc n) app =
      let (r, app') = ui_confirm_output sdk true app in
      let rest = approvals n app' in
      elim r [
        | ok _ ↦ if is_output_screen app'.flow then rest else (ok tt, app')
        | throw e ↦ (throw e, app')
        | fault ↦ (fault, app')
      ]

  -- One round, where the rest of them ends the review.
  round-Ends :
      (n : ℕ) (app : App H) (r : Result (Unit {0}))
      → (ui_confirm_output sdk true app).0 ≡ r
      → Ends sdk (r, (ui_confirm_output sdk true app).1)
        ⊎ Ends sdk (approvals n (ui_confirm_output sdk true app).1)
      → Ends sdk (approvals (suc n) app)
  unfolding approvals Ends
  round-Ends n app (ok _) e ends =
      elim (Bool-cases (is_output_screen (ui_confirm_output sdk true app).1.flow)) [
        | inl shows ↦
            rw (approvals, e, shows)
              (elim ends [ inl left ↦ absurd (true≢false (sym shows ∙ left)) | inr rest ↦ rest ])
        | inr other ↦ rw (approvals, e, other) other
      ]
  round-Ends n app (throw x) e ends = rw (approvals, e) tt
  round-Ends n app fault e ends = rw (approvals, e) tt

  -- In a review of a transaction of at most 255 outputs whose change information names outputs of
  -- it: after as many approvals as outputs are left, the review has ended. The screens show no
  -- output any more, or the program has thrown an error, or read or written past an array.
  pub approvals-Ends :
      (n : ℕ) (app : App H)
      → InReview app
      → app.ctx.tx_info.outputs_len ≤ confirmed app + n
      → Ends sdk (approvals n app)
  unfolding Nearer
  approvals-Ends zero app here enough = absurd (omega (arith, here.before_last))
  approvals-Ends (suc n) app here enough =
      let app' = (ui_confirm_output sdk true app).1 in
      round-Ends n app _ refl (elim (confirm-Nearer sdk app here) [
        | inl ends ↦ inl ends
        | inr (done, still, up, same) ↦
            inr (approvals-Ends n app' still (omega (arith, ap (λ (s : Settings). s.0) same)))
      ])

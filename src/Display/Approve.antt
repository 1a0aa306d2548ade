-- ===== src/Display/Approve.antt =====
-- One approval of an output (src/ui/display.c).
use hathor_ledger_app.Prelude.{
  ◌+◌, ◌≤◌, ◌<◌, ◌≡◌, ◌⊎◌, refl, sym, subst, Option, some, none, ap, ◌∙◌, Bool, true, false, length,
  ◌==◌, arith, inl, inr, Bool-cases, same_or_not,
}
use hathor_ledger_app.Result.{Result, ok, throw, fault}
use hathor_ledger_app.Sdk.{Sdk}
use hathor_ledger_app.App.{App, display_tx_output, confirm_output, Screen}
use hathor_ledger_app.Display.Shown.{with_screen, moved, prepared}
use hathor_ledger_app.Display.{
  next_output, check_output_index_state, skip_change_outputs, inplace_selection_sort,
  prepare_display_output, ui_display_tx_outputs, ui_confirm_output,
}
use hathor_ledger_app.Display.Sort.{count}
use hathor_ledger_app.Display.Indices.{confirmed, change_indices, count-sorted}
use hathor_ledger_app.Display.Skip.{check-output}
use hathor_ledger_app.Display.Past.{skip_loop-none}
use hathor_ledger_app.Display.Review.{
  is_output_screen, count-named, settings, InReview, Left, Stay, check-Left, skip-step,
}

module _ {H : Type 0} (sdk : Sdk H) where
  -- With an error, or at another screen.
  unfoldable pub Ends : Result (Unit {0}) × App H → Type 0
  Ends (ok _, app) = Left app
  Ends (throw e, app) = Unit
  Ends (fault, app) = Unit

  -- The rest of `ui_display_tx_outputs`.
  finish : Result Bool × App H → Result (Unit {0}) × App H
  finish (ok true, app) = (ok tt, app)
  finish (ok false, app) =
      (ok tt, record app { callback = some confirm_output; flow = display_tx_output })
  finish (throw e, app) = (throw e, app)
  finish (fault, app) = (fault, app)

  outputs-finish :
      (app : App H) (r : Result Bool)
      → (prepare_display_output sdk app).0 ≡ r
      → ui_display_tx_outputs sdk app ≡ finish (r, (prepare_display_output sdk app).1)
  unfolding ui_display_tx_outputs finish
  outputs-finish app (ok true) e = rw (ui_display_tx_outputs, e) refl
  outputs-finish app (ok false) e = rw (ui_display_tx_outputs, e) refl
  outputs-finish app (throw x) e = rw (ui_display_tx_outputs, e) refl
  outputs-finish app fault e = rw (ui_display_tx_outputs, e) refl

  rendered-step :
      (app app' : App H) (r : Result (Option Screen))
      → Stay app app'
      → Ends (finish (with_screen sdk app' r))
        ⊎ ((finish (with_screen sdk app' r)).0 ≡ ok tt)
          × Stay app (finish (with_screen sdk app' r)).1
  unfolding Ends finish with_screen is_output_screen Stay
  rendered-step app app' (ok (some screen)) (still, up, same) =
      inr (refl, (record { before_last = still.before_last; change = still.change }, up, same))
  rendered-step app app' (ok none) stay = inl refl
  rendered-step app app' (throw x) stay = inl tt
  rendered-step app app' fault stay = inl tt

  -- What `ui_display_tx_outputs` does in the review: it ends it, or shows an output.
  Next : App H → Result (Unit {0}) × App H → Type 0
  Next app (r, app') = Ends (r, app') ⊎ (r ≡ ok tt) × Stay app app'

  prepare-shown :
      (app : App H)
      → (check_output_index_state sdk app).0 ≡ true
      → prepare_display_output sdk app ≡ (ok true, (check_output_index_state sdk app).1)
  unfolding prepare_display_output
  prepare-shown app shown = rw shown refl

  prepare-skipped :
      (app : App H)
      → (check_output_index_state sdk app).0 ≡ false
      → (skip_change_outputs sdk (check_output_index_state sdk app).1).0 ≡ true
      → prepare_display_output sdk app ≡ (ok true, moved sdk app)
  unfolding prepare_display_output
  prepare-skipped app not_shown skipped = rw (not_shown, skipped) refl

  finished :
      (app : App H) (p : Result Bool × App H)
      → prepare_display_output sdk app ≡ p
      → Next app (finish p)
      → Next app (ui_display_tx_outputs sdk app)
  finished app p e next = subst (Next app) (sym (outputs-finish app _ refl ∙ ap finish e)) next

  outputs-step : (app : App H) → InReview app → Next app (ui_display_tx_outputs sdk app)
  unfolding Next Ends finish
  outputs-step app here = elim (Bool-cases (check_output_index_state sdk app).0) [
    | inl shown ↦ finished app _ (prepare-shown app shown) (inl (check-Left sdk app shown))
    | inr not_shown ↦
        let same = ((check-output sdk app).1 not_shown).0 in
        elim (skip-step sdk (check_output_index_state sdk app).1 (subst InReview (sym same) here)) [
          | inl (skipped, leaves) ↦
              finished app _ (prepare-skipped app not_shown skipped) (inl leaves)
          | inr (going_on, stay) ↦ finished app _ (prepared sdk app _ not_shown going_on refl) (
              rendered-step app (moved sdk app) _
                (subst (λ (a : App H). Stay a (moved sdk app)) same stay))
        ]
  ]

  all_confirmed :
      (app : App H)
      → confirmed app ≡ app.ctx.tx_info.outputs_len
      → (check_output_index_state sdk app).0 ≡ true
  unfolding check_output_index_state
  all_confirmed app last =
      let e : confirmed app == app.ctx.tx_info.outputs_len ≡ true = ground arith in rw e refl

  -- The last output has been confirmed.
  at_end :
      (app : App H)
      → confirmed app ≡ app.ctx.tx_info.outputs_len
      → Ends (ui_display_tx_outputs sdk app)
  unfolding Ends finish
  at_end app last =
      let shown = all_confirmed app last in
      subst Ends (sym (outputs-finish app _ refl ∙ ap finish (prepare-shown app shown)))
        (check-Left sdk app shown)

  skip-none :
      (app : App H)
      → app.ctx.tx_info.change_len ≤ length app.ctx.tx_info.change_info
      → count (confirmed app) (change_indices app) ≡ 0
      → skip_change_outputs sdk app ≡ (false, app)
  unfolding skip_change_outputs
  skip-none app fits none_listed = elim (Bool-cases (app.ctx.tx_info.change_len == 0)) [
    | inl no_change ↦ rw no_change refl
    | inr some_change ↦ rw some_change (
        skip_loop-none sdk (inplace_selection_sort app.ctx.tx_info.change_len (change_indices app))
          app (count-sorted app fits some_change (confirmed app) ∙ none_listed))
  ]

  confirm-shown :
      (app : App H)
      → (skip_change_outputs sdk (next_output app)).0 ≡ true
      → ui_confirm_output sdk true app ≡ (ok tt, (skip_change_outputs sdk (next_output app)).1)
  unfolding ui_confirm_output
  confirm-shown app shown = rw shown refl

  confirm-more :
      (app : App H)
      → (skip_change_outputs sdk (next_output app)).0 ≡ false
      → ui_confirm_output sdk true app
        ≡ ui_display_tx_outputs sdk (skip_change_outputs sdk (next_output app)).1
  unfolding ui_confirm_output
  confirm-more app more = rw more refl

  -- The review has come nearer to its end.
  unfoldable pub Nearer : App H → Result (Unit {0}) × App H → Type 0
  Nearer app (r, app') =
      Ends (r, app')
      ⊎ (r ≡ ok tt)
        × InReview app'
        × (confirmed app < confirmed app')
        × (settings app' ≡ settings app)

  -- An approval of an output ends the review or brings it nearer to its end.
  pub confirm-Nearer : (app : App H) → InReview app → Nearer app (ui_confirm_output sdk true app)
  unfolding Nearer Ends Next Stay
  confirm-Nearer app here =
      let next = next_output app in
      let after = (skip_change_outputs sdk next).1 in
      let small = here.change.outputs_len in
      let one : confirmed next ≡ confirmed app + 1 = omega (arith, here.before_last) in
      elim (same_or_not (confirmed app + 1) app.ctx.tx_info.outputs_len) [
        | inl last ↦
            let none_listed : count (confirmed next) (change_indices next) ≡ 0 =
              ap (λ k. count k (change_indices app)) (one ∙ last)
              ∙ count-named _ (change_indices app) here.change.named in
            let stays = skip-none next here.change.fits none_listed in
            subst (Nearer app)
              (sym (
                confirm-more app (ap (λ q. q.0) stays)
                ∙ ap (λ q. ui_display_tx_outputs sdk q.1) stays))
              (inl (at_end next (one ∙ last)))
        | inr more ↦
            let going : InReview next = record {
              before_last = omega (arith, here.before_last);
              change = here.change;
            } in
            elim (skip-step sdk next going) [
              | inl (shown, leaves) ↦
                  subst (Nearer app) (sym (confirm-shown app shown)) (inl leaves)
              | inr (going_on, (still, up, same)) ↦
                  subst (Nearer app) (sym (confirm-more app going_on))
                    (elim (outputs-step after still) [
                      | inl ends ↦ inl ends
                      | inr (done, (still', up', same')) ↦
                          inr (done, still', omega arith, same' ∙ same)
                    ])
            ]
      ]

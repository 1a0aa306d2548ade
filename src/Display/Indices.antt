-- ===== src/Display/Indices.antt =====
-- The indices of the change outputs, as `skip_change_outputs` of src/ui/display.c sorts them.
use hathor_ledger_app.Prelude.{
  ℕ, suc, ◌≤◌, ◌≡◌, refl, ap, ◌∙◌, true, false, List, [], ◌∷◌, map, length, length-take, take, ◌==◌,
  arith,
}
use hathor_ledger_app.App.{App, ChangeOutputInfo}
use hathor_ledger_app.Display.{inplace_selection_sort}
use hathor_ledger_app.Display.Sort.{Ascending, count, inplace_selection_sort-sorts}

length-indices :
    (infos : List ChangeOutputInfo)
    → length (map (λ (c : ChangeOutputInfo). c.index) infos) ≡ length infos
length-indices [] = refl
length-indices (c ∷ infos) = ap suc (length-indices infos)

module _ {H : Type 0} where
  abbrev pub confirmed : App H → ℕ
  confirmed app = app.ctx.tx_info.confirmed_outputs

  -- The indices of the outputs that were verified to be change.
  abbrev pub change_indices : App H → List ℕ
  change_indices app =
      let tx = app.ctx.tx_info in
      map (λ (c : ChangeOutputInfo). c.index) (take tx.change_len tx.change_info)

  pub no_indices :
      (app : App H) (k : ℕ)
      → app.ctx.tx_info.change_len == 0 ≡ true
      → count k (change_indices app) ≡ 0
  no_indices app k e =
      let none_left : app.ctx.tx_info.change_len ≡ 0 = ground arith in
      ap
        (λ n.
          count k (map (λ (c : ChangeOutputInfo). c.index) (take n app.ctx.tx_info.change_info)))
        none_left

  module _ (app : App H)
      (fits : app.ctx.tx_info.change_len ≤ length app.ctx.tx_info.change_info) where
    length-change_indices : length (change_indices app) ≡ app.ctx.tx_info.change_len
    length-change_indices =
        let tx = app.ctx.tx_info in
        length-indices (take tx.change_len tx.change_info)
        ∙ omega (arith, length-take tx.change_len tx.change_info)

    sorts :
        (k : ℕ)
        → app.ctx.tx_info.change_len == 0 ≡ false
        → Ascending (inplace_selection_sort app.ctx.tx_info.change_len (change_indices app))
          × (count k (inplace_selection_sort app.ctx.tx_info.change_len (change_indices app))
              ≡ count k (change_indices app))
    sorts k e =
        inplace_selection_sort-sorts app.ctx.tx_info.change_len (change_indices app) k
          (ground arith) length-change_indices

    pub sorted-Ascending :
        app.ctx.tx_info.change_len == 0 ≡ false
        → Ascending (inplace_selection_sort app.ctx.tx_info.change_len (change_indices app))
    sorted-Ascending e = (sorts 0 e).0

    pub count-sorted :
        app.ctx.tx_info.change_len == 0 ≡ false
        → (k : ℕ)
        → count k (inplace_selection_sort app.ctx.tx_info.change_len (change_indices app))
          ≡ count k (change_indices app)
    count-sorted e k = (sorts k e).1

-- ===== src/Display/Shown.antt =====
-- What the screen of an output says: the address and the amount, read back.
use hathor_ledger_app.Prelude.{
  Bool, false, true, get_or, ℕ, ◌/◌, ◌%◌, ◌^◌, ◌<◌, ◌≡◌, refl, Option, none, some, List, ◌∷◌, ◌++◌,
  All, length,
}
use hathor_ledger_app.Bytes.{Bytes}
use hathor_ledger_app.Deserialize.{TxOutput}
use hathor_ledger_app.Token.{TokenData}
use hathor_ledger_app.App.{App, TxInfo, Screen, zero_output}
use hathor_ledger_app.Display.{
  ui_menu_main, send, clear_ctx, check_output_index_state, skip_change_outputs,
  prepare_display_output, output_screen,
}
use hathor_ledger_app.Result.{Result, ok, throw, fault, sw_internal_error}
use hathor_ledger_app.Format.Amount.{with_commas, two_digits}
use hathor_ledger_app.Format.Decimal.{read_decimal}
use hathor_ledger_app.Format.Digits.{IsDigit}
use hathor_ledger_app.Display.Render.{symbol_of}
use hathor_ledger_app.Sdk.{Sdk}
use hathor_ledger_app.Display.Address.{IsAddressOf}

module _ {H : Type 0} (sdk : Sdk H) where
  -- The text is the symbol, a space, the digits of the whole units with a comma before every group
  -- of three, a point, and the two digits of the hundredths.
  abbrev pub IsAmount : List ℕ → ℕ → List ℕ → Type 0
  IsAmount symbol value text =
      (digits : List ℕ) × (text
        ≡ symbol ++ (b' ' ∷ (with_commas digits ++ (b'.' ∷ two_digits (value % 100)))))
      × All IsDigit digits
      × (0 < length digits)
      × (read_decimal digits ≡ value / 100)

  -- The screen of an output.
  pub record Shows (registry : TokenData) (tx : TxInfo H) (o : TxOutput) (screen : Screen)
      : Type 0 where
    pub address : IsAddressOf o.pubkey_hash screen.address
    pub amount : IsAmount (symbol_of registry tx o) o.value screen.amount

  -- An output with the fields of its C type.
  pub record IsOutput (o : TxOutput) : Type 0 where
    pub value : o.value < 2 ^ 64
    pub hash_len : length o.pubkey_hash ≡ 20
    pub hash : Bytes o.pubkey_hash

  -- The output that the screens are at.
  abbrev pub current : App H → TxOutput
  current app = get_or app.ctx.tx_info.outputs app.ctx.tx_info.display_index zero_output

  -- What `prepare_display_output` does with the strings.
  unfoldable pub with_screen : App H → Result (Option Screen) → Result Bool × App H
  with_screen app (ok (some screen)) = (ok false, record app { screen = screen })
  with_screen app (ok none) =
      (ok true, ui_menu_main (send sdk sw_internal_error (clear_ctx sdk app)))
  with_screen app (throw e) = (throw e, app)
  with_screen app fault = (fault, app)

  -- Behind the change outputs.
  abbrev pub moved : App H → App H
  moved before = (skip_change_outputs sdk (check_output_index_state sdk before).1).1

  pub prepared :
      (before : App H) (r : Result (Option Screen))
      → (check_output_index_state sdk before).0 ≡ false
      → (skip_change_outputs sdk (check_output_index_state sdk before).1).0 ≡ false
      → output_screen sdk (moved before) ≡ r
      → prepare_display_output sdk before ≡ with_screen (moved before) r
  unfolding prepare_display_output with_screen
  prepared before (ok (some screen)) shown skipped e = rw (shown, skipped) (rw e refl)
  prepared before (ok none) shown skipped e = rw (shown, skipped) (rw e refl)
  prepared before (throw x) shown skipped e = rw (shown, skipped) (rw e refl)
  prepared before fault shown skipped e = rw (shown, skipped) (rw e refl)

  -- It has shown something else.
  is_done : Result Bool → Bool
  is_done (ok done) = done
  is_done (throw e) = true
  is_done fault = true

-- ===== src/Handler.antt =====
-- src/handler/sign_tx.c: the handler of SIGN_TX.
mod Receive
mod Sign
unfoldable pub use Receive.*
unfoldable pub use Sign.*
use hathor_ledger_app.Prelude.{
  ℕ, zero, suc, ◌+◌, ◌-◌, ◌%◌, Bool, true, false, not, ◌&&◌, ◌||◌, Option, none, some, List, [],
  ◌∷◌, ◌++◌, take, drop, length, ltb, ◌==◌, if◌then◌else◌,
}
use hathor_ledger_app.Bytes.{at}
use hathor_ledger_app.Bip32.{Bip32Path}
use hathor_ledger_app.Buffer.{Buffer, sub_size, copy_to, buffer_copy, buffer_read_bip32_path}
use hathor_ledger_app.Result.{
  Result, ok, throw, fault, sw_ok, sw_wrong_data_length, sw_bad_state, sw_signature_fail,
  sw_invalid_tx, sw_internal_error, tx_state_err, tx_state_ready,
}
use hathor_ledger_app.Exec.{returns, Exec, ◌>>=◌, ◌>>◌, pure, raise, modify}
use hathor_ledger_app.Sdk.{Sdk}
use hathor_ledger_app.Hathor.{derive_private_key}
use hathor_ledger_app.App.{
  App, TxInfo, State, state_none, state_recv_data, state_parsed, state_approved,
  confirm_transaction, zero_ctx, buffer_cap,
}
use hathor_ledger_app.Io.{zero_or_minus_one, Ret, minus_one, code, io_send_sw, io_send_response}
use hathor_ledger_app.SignTx.{decode_elements}
use hathor_ledger_app.SignTx.Change.{read_change_info, read_tx_data}
use hathor_ledger_app.Display.{with_tx, ui_menu_main, clear_ctx, send, ui_display_tx_outputs}

-- `sing_tx_stage_e`, and any other value of p1.
pub data Stage : Type 0 where
  stage_data stage_sign stage_done stage_other : Stage

module _ {H : Type 0} (sdk : Sdk H) where
  -- Zeroes the context, and answers SW_BAD_STATE.
  unfoldable pub reject_stage : App H → Ret × App H
  reject_stage app = io_send_sw sdk sw_bad_state (ui_menu_main (clear_ctx sdk app))

  unfoldable pub data_stage : ℕ → Buffer → ℕ → Exec (App H) Ret
  data_stage cx_error b chunk app =
      if is_approved app.ctx.state
      then returns (reject_stage app)
      else if ltb 0 chunk && not (is_recv_data app.ctx.state)
      then returns (reject_stage app)
      else (do received ← receive_data sdk cx_error b chunk; pure (zero_or_minus_one received)) app

  -- display_index = 0; buffer_output_len = 0
  abbrev pub reset_display : App H → App H
  reset_display app =
      with_tx app (record app.ctx.tx_info { display_index = 0; buffer_output_len = 0 })

  unfoldable pub handler_sign_tx : ℕ → Buffer → Stage → ℕ → Exec (App H) Ret
  handler_sign_tx cx_error b stage_done chunk app =
      returns (io_send_sw sdk sw_ok (ui_menu_main (clear_ctx sdk app)))
  handler_sign_tx cx_error b stage_sign chunk app = returns (sign_stage sdk b (reset_display app))
  handler_sign_tx cx_error b stage_data chunk app = data_stage cx_error b chunk (reset_display app)
  handler_sign_tx cx_error b stage_other chunk app = returns (reject_stage app)

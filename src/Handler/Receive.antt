-- ===== src/Handler/Receive.antt =====
-- src/handler/sign_tx.c: receiving a chunk of the transaction.
use hathor_ledger_app.Prelude.{
  ℕ, ◌+◌, ◌-◌, Bool, true, false, not, Option, none, some, ◌++◌, take, drop, ◌==◌, if◌then◌else◌,
}
use hathor_ledger_app.Buffer.{Buffer, sub_size, buffer_copy}
use hathor_ledger_app.Result.{
  Result, ok, throw, fault, sw_ok, sw_wrong_data_length, sw_bad_state, sw_invalid_tx, tx_state_err,
  tx_state_ready,
}
use hathor_ledger_app.Exec.{Exec, ◌>>=◌, ◌>>◌, pure, modify}
use hathor_ledger_app.Sdk.{Sdk}
use hathor_ledger_app.App.{
  App, TxInfo, State, state_recv_data, confirm_transaction, zero_ctx, buffer_cap,
}
use hathor_ledger_app.SignTx.{decode_elements}
use hathor_ledger_app.SignTx.Change.{read_change_info, read_tx_data}
use hathor_ledger_app.Display.{with_tx, ui_menu_main, clear_ctx, send, ui_display_tx_outputs}

unfoldable pub is_recv_data : State → Bool
is_recv_data state_recv_data = true
is_recv_data _ = false

module _ {H : Type 0} (sdk : Sdk H) where
  -- A reader of the command's data that fills in the transaction's fields.
  abbrev pub on_tx : (TxInfo H → Result (Unit {0}) × Buffer × TxInfo H) → Exec (App H) Buffer
  on_tx f app =
      let (r, b, tx) = f app.ctx.tx_info in
      (elim r [ ok _ ↦ ok b | throw e ↦ throw e | fault ↦ fault ], with_tx app tx)

  unfoldable pub init_sign_tx_ctx : App H → App H
  init_sign_tx_ctx app =
      let zero = zero_ctx sdk in
      record app {
        ctx = record zero {
          state = state_recv_data;
          req_type = confirm_transaction;
          tx_info = record zero.tx_info { sha256 = sdk.sha256_init };
        };
      }

  -- CX_THROW throws the error code of the SDK, which is given here as `cx_error`.
  unfoldable pub sighash_all_hash : ℕ → Buffer → Exec (App H) (Unit {0})
  sighash_all_hash cx_error b app =
      let tx = app.ctx.tx_info in
      let input = take (sub_size b.size b.offset) (drop b.offset b.ptr) in
      elim (sdk.hash_update tx.sha256 input) [
        | none ↦ (throw cx_error, app)
        | some context ↦ (ok tt, with_tx app (record tx { sha256 = context }))
      ]

  -- The copy of the command's data behind what the decode buffer holds.
  unfoldable pub append_to_buffer : Buffer → Exec (App H) (Unit {0})
  unfolding buffer_copy
  append_to_buffer b app =
      let tx = app.ctx.tx_info in
      let (done, behind) =
        buffer_copy b (drop tx.buffer_len tx.buffer) (buffer_cap - tx.buffer_len) in
      if done
      then (
        ok tt,
        with_tx app (record tx {
          buffer = take tx.buffer_len tx.buffer ++ behind;
          buffer_len = tx.buffer_len + sub_size b.size b.offset;
        }),
      )
      else (throw sw_wrong_data_length, app)

  -- The switch on the result of `decode_elements`. Without fuel it would not return;
  -- `decode_elements` always has enough.
  unfoldable pub finish_chunk : Option (Result ℕ × TxInfo H) → Exec (App H) Bool
  finish_chunk none app = (fault, app)
  finish_chunk (some (fault, tx)) app = (fault, with_tx app tx)
  finish_chunk (some (throw e, tx)) app = (throw e, with_tx app tx)
  finish_chunk (some (ok result, tx)) app =
      if result == tx_state_err
      then (ok true, ui_menu_main (send sdk sw_invalid_tx (clear_ctx sdk (with_tx app tx))))
      else if not (result == tx_state_ready)
      then (ok false, with_tx app tx)
      else if tx.buffer_output_len == 0
      then (ok true, send sdk sw_ok (with_tx app tx))
      else (let (r, app') = ui_display_tx_outputs sdk (with_tx app tx) in
          (elim r [ ok _ ↦ ok true | throw e ↦ throw e | fault ↦ fault ], app'))

  -- The first chunk starts the transaction, and is refused while one is being received.
  unfoldable pub start_transaction : ℕ → Buffer → Exec (App H) Buffer
  start_transaction cx_error b app =
      if is_recv_data app.ctx.state
      then (throw sw_bad_state, clear_ctx sdk app)
      else ((do
        modify init_sign_tx_ctx
        b1 ← on_tx (read_change_info b)
        sighash_all_hash cx_error b1
        on_tx (read_tx_data b1))
          app)

  unfoldable pub receive_data : ℕ → Buffer → ℕ → Exec (App H) Bool
  receive_data cx_error b chunk = do
    b' ←
        (if chunk == 0
          then start_transaction cx_error b
          else do sighash_all_hash cx_error b; pure b)
    append_to_buffer b'
    λ app. finish_chunk (decode_elements sdk app.symbols app.ctx.tx_info) app

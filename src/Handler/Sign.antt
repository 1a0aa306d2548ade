-- ===== src/Handler/Sign.antt =====
-- src/handler/sign_tx.c: signing with the key of a path. What a failed hash leaves in the context
-- is not modelled: the program leaves its main loop then, which starts by zeroing the context.
use hathor_ledger_app.Prelude.{
  ℕ, Bool, true, false, not, Option, none, some, List, [], take, length, ◌==◌, if◌then◌else◌,
}
use hathor_ledger_app.Bytes.{at}
use hathor_ledger_app.Buffer.{Buffer, buffer_read_bip32_path}
use hathor_ledger_app.Result.{
  sw_ok, sw_wrong_data_length, sw_bad_state, sw_signature_fail, sw_internal_error,
}
use hathor_ledger_app.Sdk.{Sdk}
use hathor_ledger_app.Hathor.{derive_private_key}
use hathor_ledger_app.App.{App, TxInfo, State, state_approved}
use hathor_ledger_app.Io.{
  Ret, is_positive, is_not_negative, zero_or_minus_one, io_send_sw, io_send_response,
}
use hathor_ledger_app.Display.{with_tx}

unfoldable pub is_approved : State → Bool
is_approved state_approved = true
is_approved _ = false

module _ {H : Type 0} (sdk : Sdk H) where
  -- The path and the private key are there; `sighash_all` is computed on the first signature. Its
  -- first byte tells whether it has been computed.
  unfoldable pub finish_sighash : TxInfo H → Option (TxInfo H)
  finish_sighash tx =
      if not (at tx.sighash_all 0 == 0) then some tx else elim (sdk.hash_last tx.sha256 []) [
        | none ↦ none
        | some (first, _) ↦ elim (sdk.hash_last sdk.sha256_init first) [
          | none ↦ none
          | some (second, context) ↦ some (record tx { sighash_all = second; sha256 = context })
        ]
      ]

  -- io_send_sw(sw) > 0
  abbrev pub sent_error : ℕ → App H → Bool × App H
  sent_error sw app = let (ret, app') = io_send_sw sdk sw app in (is_positive ret, app')

  -- The signature with a derived private key.
  unfoldable pub sign_sighash : List ℕ → App H → Bool × App H
  sign_sighash private_key app = elim (finish_sighash app.ctx.tx_info) [
    | none ↦ sent_error sw_internal_error app
    | some tx ↦ elim (sdk.ecdsa_sign private_key (take 32 tx.sighash_all)) [
      | none ↦ sent_error sw_internal_error (with_tx app tx)
      | some out ↦
          let (ret, app') =
            io_send_response sdk (record { ptr = out; size = length out; offset = 0 }) sw_ok
              (with_tx app tx) in
          (is_not_negative ret, app')
    ]
  ]

  unfoldable pub sign_tx_with_key : App H → Bool × App H
  sign_tx_with_key app =
      let path = app.ctx.bip32_path in
      if path.length == 0
      then sent_error sw_signature_fail app
      else elim (derive_private_key sdk path.path path.length) [
        | none ↦ sent_error sw_internal_error app
        | some (private_key, _) ↦ sign_sighash private_key app
      ]

  unfoldable pub sign_stage : Buffer → App H → Ret × App H
  sign_stage b app =
      let (read, path, _) = buffer_read_bip32_path b app.ctx.bip32_path in
      let app1 = record app { ctx = record app.ctx { bip32_path = path } } in
      if not (is_approved app.ctx.state)
      then io_send_sw sdk sw_bad_state app
      else if not read
      then io_send_sw sdk sw_wrong_data_length app1
      else (let (signed, app2) = sign_tx_with_key app1 in (zero_or_minus_one signed, app2))

-- ===== src/Approval/Commands.antt =====
-- The commands that receive tokens and transactions keep `Safe`.
use hathor_ledger_app.Prelude.{ℕ, Bool, Option, none, some, inl, inr, Bool-cases, ◌==◌, arith}
use hathor_ledger_app.Buffer.{Buffer}
use hathor_ledger_app.Result.{sw_ok, sw_invalid_tx, Result, ok, throw, fault}
use hathor_ledger_app.Exec.{Exec, continue, ◌>>=◌}
use hathor_ledger_app.Sdk.{Sdk}
use hathor_ledger_app.Token.{Token, zero_token}
use hathor_ledger_app.App.{App, TxInfo}
use hathor_ledger_app.Io.{io_send_sw, finish_response}
use hathor_ledger_app.Handler.{
  init_sign_tx_ctx, sighash_all_hash, append_to_buffer, finish_chunk, start_transaction,
  receive_data,
}
use hathor_ledger_app.Storage.{generate_secret, get_secret, check_token_signature_from_apdu}
use hathor_ledger_app.Display.{clear_ctx, with_tx}
use hathor_ledger_app.SignTx.{decode_elements}
use hathor_ledger_app.Command.Tokens.{save_token, register_token}
use hathor_ledger_app.Approval.{Safe, safe}
use hathor_ledger_app.Approval.Screens.{Keeps-display_outputs, Keeps-error, Keeps-send}

module _ {H : Type 0} (sdk : Sdk H) (buttons states : Bool) where
  abbrev pub Keeps : App H → Type 0
  Keeps app = Safe buttons states app

  pub Keeps-get_secret : (app : App H) → Keeps app → Keeps (get_secret sdk app).1
  unfolding get_secret generate_secret
  Keeps-get_secret app h = ground arith

  pub Keeps-check_signature :
      (b : Buffer) (t : Token) (app : App H)
      → Keeps app
      → Keeps (check_token_signature_from_apdu sdk b t app).2
  unfolding check_token_signature_from_apdu
  Keeps-check_signature b t app h = ground (arith, Keeps-get_secret app)

  Keeps-save_token : (t : Token) (app : App H) → Keeps app → Keeps (save_token sdk t app).1
  unfolding save_token io_send_sw finish_response
  Keeps-save_token t app h = ground arith

  pub Keeps-register : (b : Buffer) (app : App H) → Keeps app → Keeps (register_token sdk b app).1
  unfolding register_token io_send_sw finish_response
  Keeps-register b app h = ground (
    arith,
    Keeps-check_signature b zero_token app,
    Keeps-save_token (check_token_signature_from_apdu sdk b zero_token app).1
        (check_token_signature_from_apdu sdk b zero_token app).2,
  )

  pub Keeps-append : (b : Buffer) (app : App H) → Keeps app → Keeps (append_to_buffer sdk b app).1
  unfolding append_to_buffer
  Keeps-append b app h = ground arith

  pub Keeps-hash :
      (e : ℕ) (b : Buffer) (app : App H) → Keeps app → Keeps (sighash_all_hash sdk e b app).1
  unfolding sighash_all_hash
  Keeps-hash e b app h = ground arith

  Keeps-finish_chunk :
      (r : Option (Result ℕ × TxInfo H)) (app : App H)
      → Keeps app
      → Keeps (finish_chunk sdk r app).1
  unfolding finish_chunk
  Keeps-finish_chunk none app h = h
  Keeps-finish_chunk (some (fault, tx)) app h = h
  Keeps-finish_chunk (some (throw e, tx)) app h = h
  Keeps-finish_chunk (some (ok result, tx)) app h = ground (
    arith,
    Keeps-error sdk buttons states sw_invalid_tx (with_tx app tx),
    Keeps-send sdk buttons states sw_ok (with_tx app tx) h,
    Keeps-display_outputs sdk buttons states (with_tx app tx) h,
  )

  pub Keeps-cleared : (app : App H) → Keeps app → Keeps (clear_ctx sdk app)
  unfolding safe
  Keeps-cleared app h = ground arith

  Keeps-init : (app : App H) → Keeps app → Keeps (init_sign_tx_ctx sdk app)
  unfolding init_sign_tx_ctx safe
  Keeps-init app h = ground arith

  Keeps-start :
      (e : ℕ) (b : Buffer) (app : App H) → Keeps app → Keeps (start_transaction sdk e b app).1
  unfolding start_transaction sighash_all_hash
  Keeps-start e b app h = ground (arith, Keeps-cleared app h, Keeps-init app h)

  pub Keeps-continue :
      {A B : Type 0} (r : Result A) (f : A → Exec (App H) B) (s : App H)
      → Keeps s
      → ((a : A) → Keeps (f a s).1)
      → Keeps (continue r f s).1
  Keeps-continue (ok a) f s h k = k a
  Keeps-continue (throw e) f s h k = h
  Keeps-continue fault f s h k = h

  -- The data that reaches the decoder.
  Keeps-after :
      (r : Result Buffer) (app : App H)
      → Keeps app
      → Keeps
          (continue {B = Bool} r
            (λ b'. append_to_buffer sdk b' >>= λ _ app'.
              finish_chunk sdk (decode_elements sdk app'.symbols app'.ctx.tx_info) app')
            app).1
  Keeps-after r app h = Keeps-continue r _ app h λ b.
      Keeps-continue (append_to_buffer sdk b app).0 _ (append_to_buffer sdk b app).1
        (Keeps-append b app h)
        λ _. Keeps-finish_chunk _ (append_to_buffer sdk b app).1 (Keeps-append b app h)

  pub Keeps-receive :
      (e : ℕ) (b : Buffer) (chunk : ℕ) (app : App H)
      → Keeps app
      → Keeps (receive_data sdk e b chunk app).1
  unfolding receive_data
  Keeps-receive e b chunk app h = elim (Bool-cases (chunk == 0)) [
    | inl first ↦ rw first (
        Keeps-after (start_transaction sdk e b app).0 (start_transaction sdk e b app).1
          (Keeps-start e b app h))
    | inr later ↦ rw later (
        Keeps-after _ _ (
          Keeps-continue (sighash_all_hash sdk e b app).0 _ (sighash_all_hash sdk e b app).1
            (Keeps-hash e b app h) (λ _. Keeps-hash e b app h)))
  ]

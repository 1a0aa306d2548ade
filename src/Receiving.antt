-- ===== src/Receiving.antt =====
-- src/handler/sign_tx.c: a chunk of the transaction after the first, from its arrival to what the
-- decoder makes of it. The handler first forgets the outputs of the chunk before, which the user has
-- confirmed by then.
use hathor_ledger_app.Prelude.{ℕ, List, length}
use hathor_ledger_app.Result.{Result}
use hathor_ledger_app.Sdk.{Sdk}
use hathor_ledger_app.App.{App, TxInfo}
use hathor_ledger_app.Handler.{append_to_buffer, reset_display}
use hathor_ledger_app.SignTx.{decode_elements}
use hathor_ledger_app.SignTx.Stream.{Decoding}

module _ {H : Type 0} (sdk : Sdk H) where
  -- The chunk behind the bytes that wait, or its refusal: `handler_sign_tx` and `receive_data` up to
  -- the decoder, less the hash.
  abbrev pub arrive : List ℕ → App H → Result (Unit {0}) × App H
  arrive bytes app =
      append_to_buffer sdk (record { ptr = bytes; size = length bytes; offset = 0 })
        (reset_display sdk app)

  -- What the decoder makes of the bytes that wait.
  abbrev pub decoded : App H → Decoding H
  decoded app = decode_elements sdk app.symbols app.ctx.tx_info

  -- The transaction with no output that waits for the user.
  abbrev pub forget : TxInfo H → TxInfo H
  forget tx = record tx { display_index = 0; buffer_output_len = 0 }

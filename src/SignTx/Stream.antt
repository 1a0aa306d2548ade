-- ===== src/SignTx/Stream.antt =====
-- src/handler/sign_tx.c: the decoder on a stream of bytes that is cut into pieces. A
-- state of the decoder is its fields, the bytes that wait, and what older bytes left behind them in
-- the array.
mod Element
mod Output
mod Loop
pub mod Chunks
pub mod Encode
pub mod RoundTrip
use hathor_ledger_app.Prelude.{
  ℕ, ◌+◌, ◌==◌, if◌then◌else◌, Option, none, some, List, [], ◌∷◌, ◌++◌, take, drop, length,
}
use hathor_ledger_app.Buffer.{copy_to}
use hathor_ledger_app.Result.{Result, ok, throw, fault, tx_state_ready}
use hathor_ledger_app.Sdk.{Sdk}
use hathor_ledger_app.Token.{TokenData}
use hathor_ledger_app.App.{TxInfo}
use hathor_ledger_app.SignTx.{decode_elements}

-- The bytes of all chunks.
abbrev pub concat : List (List ℕ) → List ℕ
concat [] = []
concat (chunk ∷ chunks) = chunk ++ concat chunks

-- What `decode_elements` returns.
abbrev pub Decoding : Type 0 → Type 0
Decoding H = Option (Result ℕ × TxInfo H)

module _ {H : Type 0} where
  abbrev pub load : TxInfo H → List ℕ → List ℕ → TxInfo H
  load tx xs junk = record tx { buffer = xs ++ junk; buffer_len = length xs }

  -- The bytes behind those that wait, as `append_to_buffer` puts them where there is room.
  abbrev pub feed : TxInfo H → List ℕ → TxInfo H
  feed tx chunk = record tx {
    buffer = take tx.buffer_len tx.buffer ++ copy_to chunk (drop tx.buffer_len tx.buffer);
    buffer_len = tx.buffer_len + length chunk;
  }

  -- The state without what is left behind the bytes that wait.
  abbrev pub trim : TxInfo H → TxInfo H
  trim tx = record tx { buffer = take tx.buffer_len tx.buffer }

  -- What the program goes on with: the result and, where that asks for more bytes, the state. After
  -- any other result the context is cleared.
  abbrev pub settled : Decoding H → Option (Result ℕ × Option (TxInfo H))
  settled none = none
  settled (some (ok s, tx)) = some (ok s, if s == tx_state_ready then some (trim tx) else none)
  settled (some (throw e, tx)) = some (throw e, none)
  settled (some (fault, tx)) = some (fault, none)

  -- The next step, where the decoder asks for more bytes.
  abbrev pub if_ready : (TxInfo H → Decoding H) → Decoding H → Decoding H
  if_ready next none = none
  if_ready next (some (ok s, tx)) = if s == tx_state_ready then next tx else some (ok s, tx)
  if_ready next (some (throw e, tx)) = some (throw e, tx)
  if_ready next (some (fault, tx)) = some (fault, tx)

  module _ (sdk : Sdk H) (registry : TokenData) where
    -- The decoder on pieces of the stream one after the other, without what the handler does between
    -- two chunks: a step of the proofs about the handler.
    unfoldable pub decode_chunks : List (List ℕ) → TxInfo H → Decoding H
    decode_chunks [] tx = some (ok tx_state_ready, tx)
    decode_chunks (chunk ∷ chunks) tx =
        if_ready (decode_chunks chunks) (decode_elements sdk registry (feed tx chunk))

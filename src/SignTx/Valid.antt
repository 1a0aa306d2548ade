-- ===== src/SignTx/Valid.antt =====
-- The arrays of the context and their lengths: the invariant of the decoder.
use hathor_ledger_app.Prelude.{◌⊎◌, ◌+◌, ◌≤◌, ◌≡◌, Option, none, some}
use hathor_ledger_app.Result.{Result, fault}
use hathor_ledger_app.Sdk.{Sdk}
use hathor_ledger_app.Token.{tx_max_tokens}
use hathor_ledger_app.App.{TxInfo, outputs_cap, buffer_cap}

module _ {H : Type 0} where
  -- Every length is within its array's capacity.
  pub record IsValid (tx : TxInfo H) : Type 0 where
    pub buffer_len : tx.buffer_len ≤ buffer_cap
    pub tokens_len : tx.tokens_len ≤ tx_max_tokens
    pub buffer_output_len : tx.buffer_output_len ≤ outputs_cap

  -- The lengths right after the write past the end of the array of tokens.
  pub record IsPast (tx : TxInfo H) : Type 0 where
    pub buffer_len : tx.buffer_len ≤ buffer_cap
    pub tokens_len : tx.tokens_len ≡ tx_max_tokens + 1
    pub buffer_output_len : tx.buffer_output_len ≤ outputs_cap

  -- With the result: every length is in its array, or this is the fault of an eleventh token.
  abbrev pub InBounds : {R : Type 0} → Result R → TxInfo H → Type 0
  InBounds r tx = IsValid tx ⊎ (r ≡ fault) × IsPast tx

  -- The same of what the decoder returns.
  abbrev ValidAfter : {R : Type 0} → Option (Result R × TxInfo H) → Type 0
  ValidAfter none = Unit
  ValidAfter (some (r, tx)) = InBounds r tx

-- ===== src/Tests/Stream.antt =====
-- An output that arrives in two chunks, and two outputs in one.
use hathor_ledger_app.Prelude.{ℕ, List, [], ◌∷◌, take, replicate, some, none}
use hathor_ledger_app.App.{App, TxInfo, zero_tx_info}
use hathor_ledger_app.Display.{with_tx}
use hathor_ledger_app.SignTx.Stream.{Decoding}
use hathor_ledger_app.Deserialize.RoundTrip.{short, long}
use hathor_ledger_app.SignTx.Stream.RoundTrip.{Outputs}
use hathor_ledger_app.Receiving.{arrive, decoded}
use hathor_ledger_app.Tests.{test_sdk, idle, output_bytes}

-- One output is expected.
abbrev waiting : App (List ℕ)
waiting = with_tx idle (record (zero_tx_info test_sdk) { outputs_len = 1 })

abbrev state_of : Decoding (List ℕ) → TxInfo (List ℕ)
state_of none = zero_tx_info test_sdk
state_of (some (r, tx)) = tx

-- The state after the first 12 bytes.
abbrev half : TxInfo (List ℕ)
half = state_of (decoded test_sdk (arrive test_sdk (take 12 output_bytes) waiting).1)

-- The output in the wire format, and one of 50000000.00 of the first token.
abbrev two_outputs : Outputs
two_outputs =
    (short, record { index = 0; value = 300; token_data = 0; pubkey_hash = replicate 20 9 })
    ∷ (long, record { index = 0; value = 5000000000; token_data = 1; pubkey_hash = replicate 20 8 })
    ∷ []

abbrev expecting : App (List ℕ)
expecting = with_tx idle (record (zero_tx_info test_sdk) { outputs_len = 2; tokens_len = 1 })

-- ===== src/Tests/Shown.antt =====
-- The screen of an output of 3.00 HTR.
use hathor_ledger_app.Prelude.{ℕ, List, [], ◌∷◌, replicate}
use hathor_ledger_app.Bytes.{Bytes}
use hathor_ledger_app.App.{App}
use hathor_ledger_app.Tests.{idle}

-- One output waits for the user, and none is change.
abbrev at_output : App (List ℕ)
at_output = record idle {
  ctx = record idle.ctx {
    tx_info = record idle.ctx.tx_info {
      outputs_len = 1;
      buffer_output_len = 1;
      outputs =
          record { index = 0; value = 300; token_data = 0; pubkey_hash = replicate 20 1 } ∷ [];
    };
  };
}

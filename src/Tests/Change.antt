-- ===== src/Tests/Change.antt =====
-- The change information of one output.
use hathor_ledger_app.Prelude.{ℕ, refl, List, [], ◌∷◌}
use hathor_ledger_app.Bip32.{read_levels, levels_allowed, bip32_path_read}
use hathor_ledger_app.Bytes.{read_u32_be}
use hathor_ledger_app.Buffer.{
  Buffer, buffer_can_read, buffer_seek_cur, buffer_read_u8, buffer_read_bip32_path,
}
use hathor_ledger_app.App.{TxInfo, zero_tx_info, zero_change}
use hathor_ledger_app.SignTx.Change.{read_change_entries, read_change_info_v1, read_change_info}
use hathor_ledger_app.SignTx.ChangeInfo.{ChangeAccepted, read_change_info-ChangeAccepted}
use hathor_ledger_app.Tests.{test_sdk}

-- Version 1, one entry: output 1, and a path of the level 0.
abbrev information : Buffer
information = record { ptr = 1 ∷ 1 ∷ 1 ∷ 1 ∷ 0 ∷ 0 ∷ 0 ∷ 0 ∷ []; size = 8; offset = 0 }

abbrev at_start : TxInfo (List ℕ)
at_start = zero_tx_info test_sdk

read_change_info-ChangeAccepted_example : ChangeAccepted (read_change_info information at_start).2
unfolding read_change_info read_change_info_v1 read_change_entries buffer_can_read buffer_seek_cur
    buffer_read_u8 buffer_read_bip32_path bip32_path_read read_levels levels_allowed read_u32_be
    zero_tx_info zero_change
read_change_info-ChangeAccepted_example =
    read_change_info-ChangeAccepted information at_start refl refl

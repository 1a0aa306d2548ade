-- ===== src/Signing/Feed.antt =====
-- src/handler/sign_tx.c: a chunk in the decode buffer.
use hathor_ledger_app.Prelude.{◌+◌, ◌^◌, ◌≤◌, ◌<◌, ◌≡◌, drop, length, length-drop, take_all, arith}
use hathor_ledger_app.Buffer.{Buffer, sub_size, buffer_copy}
use hathor_ledger_app.Result.{ok}
use hathor_ledger_app.Sdk.{Sdk}
use hathor_ledger_app.App.{App, buffer_cap}
use hathor_ledger_app.Display.{with_tx}
use hathor_ledger_app.SignTx.Stream.{feed}
use hathor_ledger_app.Handler.{append_to_buffer}

module _ {H : Type 0} (sdk : Sdk H) where
  -- A chunk for which there is room is fed to the stream of bytes that wait.
  append_to_buffer-feed :
      (b : Buffer) (app : App H)
      → b.offset ≤ b.size
      → b.size < 2 ^ 32
      → length b.ptr ≡ b.size
      → app.ctx.tx_info.buffer_len + length (drop b.offset b.ptr) ≤ buffer_cap
      → append_to_buffer sdk b app
        ≡ (ok tt, with_tx app (feed app.ctx.tx_info (drop b.offset b.ptr)))
  unfolding append_to_buffer buffer_copy
  append_to_buffer-feed b app inside small whole room =
      let unread = drop b.offset b.ptr in
      let size : sub_size b.size b.offset ≡ length unread =
        omega (arith, length-drop b.offset b.ptr) in
      rw (size, take_all (length unread) unread (omega arith)) (ground arith)

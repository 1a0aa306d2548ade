-- ===== src/Buffer/Steps.antt =====
-- One step of each reader, for proofs that follow a parser: success moves the offset, failure
-- changes nothing.
use hathor_ledger_app.Prelude.{ℕ, ◌+◌, ◌-◌, ◌^◌, ◌≤◌, ◌<◌, ◌≡◌, true, false, arith}
use hathor_ledger_app.Bytes.{at, read_u16_be, read_u32_be, read_u64_be}
use hathor_ledger_app.Buffer.{
  Buffer, be, buffer_read_u8, buffer_read_u16, buffer_read_u32, buffer_read_u64, buffer_seek_cur,
}

module _ (b : Buffer) (within : b.offset ≤ b.size) (small : b.size < 2 ^ 32) where
  pub read_u8_done :
      1 ≤ b.size - b.offset
      → buffer_read_u8 b ≡ (true, at b.ptr b.offset, record b { offset = b.offset + 1 })
  unfolding buffer_read_u8
  read_u8_done h = ground arith

  pub read_u8_short : b.size - b.offset < 1 → buffer_read_u8 b ≡ (false, 0, b)
  unfolding buffer_read_u8
  read_u8_short h = ground arith

  pub read_u16_done :
      2 ≤ b.size - b.offset
      → buffer_read_u16 b be
        ≡ (true, read_u16_be b.ptr b.offset, record b { offset = b.offset + 2 })
  unfolding buffer_read_u16
  read_u16_done h = ground arith

  pub read_u16_short : b.size - b.offset < 2 → buffer_read_u16 b be ≡ (false, 0, b)
  unfolding buffer_read_u16
  read_u16_short h = ground arith

  pub read_u32_done :
      4 ≤ b.size - b.offset
      → buffer_read_u32 b be
        ≡ (true, read_u32_be b.ptr b.offset, record b { offset = b.offset + 4 })
  unfolding buffer_read_u32
  read_u32_done h = ground arith

  pub read_u32_short : b.size - b.offset < 4 → buffer_read_u32 b be ≡ (false, 0, b)
  unfolding buffer_read_u32
  read_u32_short h = ground arith

  pub read_u64_done :
      8 ≤ b.size - b.offset
      → buffer_read_u64 b be
        ≡ (true, read_u64_be b.ptr b.offset, record b { offset = b.offset + 8 })
  unfolding buffer_read_u64
  read_u64_done h = ground arith

  pub read_u64_short : b.size - b.offset < 8 → buffer_read_u64 b be ≡ (false, 0, b)
  unfolding buffer_read_u64
  read_u64_short h = ground arith

  pub seek_cur_done :
      (n : ℕ)
      → n ≤ b.size - b.offset
      → buffer_seek_cur b n ≡ (true, record b { offset = b.offset + n })
  unfolding buffer_seek_cur
  seek_cur_done n h = ground arith

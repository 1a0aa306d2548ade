-- ===== src/Buffer/Refine.antt =====
-- The integer readers of buffer.c against readers of a byte string.
use hathor_ledger_app.Prelude.{
  ℕ, ◌+◌, ◌-◌, ◌≤◌, ◌<◌, ◌≡◌, refl, ap, sym, ◌∙◌, Bool, true, false, Bool-cases, inl, inr, Option,
  none, some, List, length, take, leb, if◌then◌else◌, arith,
}
use hathor_ledger_app.Bytes.{
  IsByte, at, read_u16_be, read_u32_be, read_u64_be, read_u16_le, read_u32_le, read_u64_le,
}
use hathor_ledger_app.Bytes.Value.{
  read_u16_be-eq, read_u32_be-eq, read_u64_be-eq, read_u16_le-eq, read_u32_le-eq, read_u64_le-eq,
}
use hathor_ledger_app.Buffer.{
  Buffer, Endianness, be, le, buffer_can_read, buffer_seek_cur, buffer_read_u8, buffer_read_u16,
  buffer_read_u32, buffer_read_u64,
}
use hathor_ledger_app.Buffer.Spell.{
  value_of, uint, be_bytes_1, be_bytes_2, be_bytes_4, be_bytes_8, le_bytes_2, le_bytes_4,
  le_bytes_8,
}
use hathor_ledger_app.Buffer.View.{
  IsValid, remaining, sub_size-eq, length-remaining, at-remaining, at-IsByte, remaining-Bytes,
  remaining-advance,
}

-- A reader of the buffer does what a reader of its unread bytes does: it returns the same value and
-- leaves the same bytes unread, and where that has too few bytes it returns 0 and changes nothing.
abbrev pub Reads : Buffer → Bool × ℕ × Buffer → Option (ℕ × List ℕ) → Type 0
Reads b (true, v, b') (some (w, rest)) =
    (v ≡ w) × (remaining b' ≡ rest) × IsValid b' × (b'.ptr ≡ b.ptr) × (b'.size ≡ b.size)
Reads b (false, v, b') none = (v ≡ 0) × (b' ≡ b)
Reads b _ _ = ⊥

pub can_read-eq :
    {b : Buffer} (n : ℕ) → IsValid b → buffer_can_read b n ≡ leb n (length (remaining b))
unfolding buffer_can_read
can_read-eq {b} n v = ap (leb n) (sub_size-eq v ∙ sym (length-remaining v))

-- A seek within the unread bytes succeeds and skips them.
pub seek_cur-eq :
    {b : Buffer} (n : ℕ)
    → IsValid b
    → n ≤ b.size - b.offset
    → buffer_seek_cur b n ≡ (true, record b { offset = b.offset + n })
unfolding buffer_seek_cur
seek_cur-eq {b} n v h = ground arith

pub advance-IsValid :
    {b : Buffer} (n : ℕ)
    → IsValid b
    → n ≤ b.size - b.offset
    → IsValid (record b { offset = b.offset + n })
advance-IsValid n v h = record {
  within = omega arith;
  backed = v.backed;
  small = v.small;
  bytes = v.bytes;
}

-- The common part of the four readers.
read_lem :
    {b : Buffer} (e : Endianness) (n value : ℕ)
    → IsValid b
    → (n ≤ length (remaining b) → value ≡ value_of e (take n (remaining b)))
    → Reads b
        (if buffer_can_read b n then (true, value, (buffer_seek_cur b n).1) else (false, 0, b))
        (uint e n (remaining b))
unfolding uint
read_lem {b} e n value v h =
    rw (can_read-eq n v) (elim (Bool-cases (leb n (length (remaining b)))) [
      | inl fits ↦
          let enough : n ≤ length (remaining b) = ground arith in
          let room : n ≤ b.size - b.offset = omega (arith, length-remaining v) in
          rw (fits, seek_cur-eq n v room)
            (h enough, remaining-advance b n, advance-IsValid n v room, refl, refl)
      | inr short ↦ rw short (refl, refl)
    ])

module _ {b : Buffer} (v : IsValid b) where
  byte : (i : ℕ) → i < length (remaining b) → at b.ptr (b.offset + i) ≡ at (remaining b) i
  byte i h = at-remaining b i (omega (arith, length-remaining v))

  small : (i : ℕ) → IsByte (at (remaining b) i)
  small i = at-IsByte (remaining b) i (remaining-Bytes v)

  read_u8_value : 1 ≤ length (remaining b) → at b.ptr b.offset ≡ value_of be (take 1 (remaining b))
  read_u8_value h =
      let e : b.offset ≡ b.offset + 0 = omega arith in
      ap (at b.ptr) e ∙ byte 0 (omega arith) ∙ sym (be_bytes_1 (remaining b) h)

  read_u16_be_value :
      2 ≤ length (remaining b) → read_u16_be b.ptr b.offset ≡ value_of be (take 2 (remaining b))
  read_u16_be_value h =
      read_u16_be-eq b.ptr b.offset _ _ (byte 0 (omega arith)) (byte 1 (omega arith)) (small 0)
        (small 1)
      ∙ sym (be_bytes_2 (remaining b) h)

  read_u32_be_value :
      4 ≤ length (remaining b) → read_u32_be b.ptr b.offset ≡ value_of be (take 4 (remaining b))
  read_u32_be_value h =
      read_u32_be-eq b.ptr b.offset _ _ _ _ (byte 0 (omega arith)) (byte 1 (omega arith))
        (byte 2 (omega arith)) (byte 3 (omega arith)) (small 0) (small 1) (small 2) (small 3)
      ∙ sym (be_bytes_4 (remaining b) h)

  read_u64_be_value :
      8 ≤ length (remaining b) → read_u64_be b.ptr b.offset ≡ value_of be (take 8 (remaining b))
  read_u64_be_value h =
      read_u64_be-eq b.ptr b.offset _ _ _ _ _ _ _ _ (byte 0 (omega arith)) (byte 1 (omega arith))
        (byte 2 (omega arith)) (byte 3 (omega arith)) (byte 4 (omega arith)) (byte 5 (omega arith))
        (byte 6 (omega arith)) (byte 7 (omega arith)) (small 0) (small 1) (small 2) (small 3)
        (small 4) (small 5) (small 6) (small 7)
      ∙ sym (be_bytes_8 (remaining b) h)

  read_u16_le_value :
      2 ≤ length (remaining b) → read_u16_le b.ptr b.offset ≡ value_of le (take 2 (remaining b))
  read_u16_le_value h =
      read_u16_le-eq b.ptr b.offset _ _ (byte 0 (omega arith)) (byte 1 (omega arith)) (small 0)
        (small 1)
      ∙ sym (le_bytes_2 (remaining b) h)

  read_u32_le_value :
      4 ≤ length (remaining b) → read_u32_le b.ptr b.offset ≡ value_of le (take 4 (remaining b))
  read_u32_le_value h =
      read_u32_le-eq b.ptr b.offset _ _ _ _ (byte 0 (omega arith)) (byte 1 (omega arith))
        (byte 2 (omega arith)) (byte 3 (omega arith)) (small 0) (small 1) (small 2) (small 3)
      ∙ sym (le_bytes_4 (remaining b) h)

  read_u64_le_value :
      8 ≤ length (remaining b) → read_u64_le b.ptr b.offset ≡ value_of le (take 8 (remaining b))
  read_u64_le_value h =
      read_u64_le-eq b.ptr b.offset _ _ _ _ _ _ _ _ (byte 0 (omega arith)) (byte 1 (omega arith))
        (byte 2 (omega arith)) (byte 3 (omega arith)) (byte 4 (omega arith)) (byte 5 (omega arith))
        (byte 6 (omega arith)) (byte 7 (omega arith)) (small 0) (small 1) (small 2) (small 3)
        (small 4) (small 5) (small 6) (small 7)
      ∙ sym (le_bytes_8 (remaining b) h)

  -- On a valid buffer, `buffer_read_u8` returns the number that the next byte spells, and leaves a
  -- valid buffer with the bytes behind them unread; with fewer bytes it fails and moves nothing.
  read_u8_refines : Reads b (buffer_read_u8 b) (uint be 1 (remaining b))
  unfolding buffer_read_u8
  read_u8_refines = read_lem be 1 _ v read_u8_value

  -- On a valid buffer, `buffer_read_u16` returns the number that the next 2 bytes spell in the
  -- given order, and leaves a valid buffer with the bytes behind them unread; with fewer bytes it
  -- fails and moves nothing.
  read_u16_refines : (e : Endianness) → Reads b (buffer_read_u16 b e) (uint e 2 (remaining b))
  unfolding buffer_read_u16
  read_u16_refines be = read_lem be 2 _ v read_u16_be_value
  read_u16_refines le = read_lem le 2 _ v read_u16_le_value

  -- On a valid buffer, `buffer_read_u32` returns the number that the next 4 bytes spell in the
  -- given order, and leaves a valid buffer with the bytes behind them unread; with fewer bytes it
  -- fails and moves nothing.
  read_u32_refines : (e : Endianness) → Reads b (buffer_read_u32 b e) (uint e 4 (remaining b))
  unfolding buffer_read_u32
  read_u32_refines be = read_lem be 4 _ v read_u32_be_value
  read_u32_refines le = read_lem le 4 _ v read_u32_le_value

  -- On a valid buffer, `buffer_read_u64` returns the number that the next 8 bytes spell in the
  -- given order, and leaves a valid buffer with the bytes behind them unread; with fewer bytes it
  -- fails and moves nothing.
  read_u64_refines : (e : Endianness) → Reads b (buffer_read_u64 b e) (uint e 8 (remaining b))
  unfolding buffer_read_u64
  read_u64_refines be = read_lem be 8 _ v read_u64_be_value
  read_u64_refines le = read_lem le 8 _ v read_u64_le_value

-- On a valid buffer, the readers of 1, 2, 4 and 8 bytes return the number that the next bytes spell
-- in the given order, and leave a valid buffer with the bytes behind them unread; with fewer bytes
-- they fail and move nothing.
pub read_uint_refines :
    (b : Buffer) (e : Endianness)
    → IsValid b
    → Reads b (buffer_read_u8 b) (uint be 1 (remaining b))
      × Reads b (buffer_read_u16 b e) (uint e 2 (remaining b))
      × Reads b (buffer_read_u32 b e) (uint e 4 (remaining b))
      × Reads b (buffer_read_u64 b e) (uint e 8 (remaining b))
read_uint_refines b e v =
    (read_u8_refines v, read_u16_refines v e, read_u32_refines v e, read_u64_refines v e)

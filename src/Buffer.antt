-- ===== src/Buffer.antt =====
-- src/common/buffer.h and buffer.c: a byte array with a read position. `size_t` has 32 bits, as on
-- the device. The pointers tested against NULL are addresses of objects at every call in the
-- program, so the model takes the objects themselves and has no NULL branch.
-- A function that changes `*buffer` returns it last, after its result and its out parameter.
pub mod View
pub mod Spell
pub mod Steps
pub mod Unread
pub mod Refine
use hathor_ledger_app.Prelude.{
  ℕ, ◌+◌, ◌-◌, ◌*◌, ◌%◌, ◌^◌, Bool, true, false, ◌||◌, List, ◌++◌, take, drop, length, ltb, leb,
  if◌then◌else◌,
}
use hathor_ledger_app.Bytes.{
  at, read_u16_be, read_u32_be, read_u64_be, read_u16_le, read_u32_le, read_u64_le,
}
use hathor_ledger_app.Bip32.{Bip32Path, bip32_path_read}

-- `size_t` arithmetic.
abbrev pub add_size : ℕ → ℕ → ℕ
add_size a b = (a + b) % 2 ^ 32

abbrev pub sub_size : ℕ → ℕ → ℕ
sub_size a b = (a + 2 ^ 32 - b) % 2 ^ 32

-- `endianness_t`
pub data Endianness : Type 0 where
  be le : Endianness

-- `buffer_t`; `ptr` is the array that the pointer shows.
pub record Buffer : Type 0 where
  pub ptr : List ℕ
  pub size : ℕ
  pub offset : ℕ

unfoldable pub buffer_can_read : Buffer → ℕ → Bool
buffer_can_read b n = leb n (sub_size b.size b.offset)

unfoldable pub buffer_seek_set : Buffer → ℕ → Bool × Buffer
buffer_seek_set b offset =
    if ltb b.size offset then (false, b) else (true, record b { offset = offset })

unfoldable pub buffer_seek_cur : Buffer → ℕ → Bool × Buffer
buffer_seek_cur b offset =
    if ltb (add_size b.offset offset) b.offset || ltb b.size (add_size b.offset offset)
    then (false, b)
    else (true, record b { offset = add_size b.offset offset })

unfoldable pub buffer_seek_end : Buffer → ℕ → Bool × Buffer
buffer_seek_end b offset =
    if ltb b.size offset then (false, b) else (true, record b { offset = sub_size b.size offset })

unfoldable pub buffer_read_u8 : Buffer → Bool × ℕ × Buffer
unfolding buffer_can_read buffer_seek_cur
buffer_read_u8 b =
    if buffer_can_read b 1
    then (true, at b.ptr b.offset, (buffer_seek_cur b 1).1)
    else (false, 0, b)

unfoldable pub buffer_read_u16 : Buffer → Endianness → Bool × ℕ × Buffer
unfolding buffer_can_read buffer_seek_cur
buffer_read_u16 b endianness =
    if buffer_can_read b 2
    then (
      true,
      elim endianness [ be ↦ read_u16_be b.ptr b.offset | le ↦ read_u16_le b.ptr b.offset ],
      (buffer_seek_cur b 2).1,
    )
    else (false, 0, b)

unfoldable pub buffer_read_u32 : Buffer → Endianness → Bool × ℕ × Buffer
unfolding buffer_can_read buffer_seek_cur
buffer_read_u32 b endianness =
    if buffer_can_read b 4
    then (
      true,
      elim endianness [ be ↦ read_u32_be b.ptr b.offset | le ↦ read_u32_le b.ptr b.offset ],
      (buffer_seek_cur b 4).1,
    )
    else (false, 0, b)

unfoldable pub buffer_read_u64 : Buffer → Endianness → Bool × ℕ × Buffer
unfolding buffer_can_read buffer_seek_cur
buffer_read_u64 b endianness =
    if buffer_can_read b 8
    then (
      true,
      elim endianness [ be ↦ read_u64_be b.ptr b.offset | le ↦ read_u64_le b.ptr b.offset ],
      (buffer_seek_cur b 8).1,
    )
    else (false, 0, b)

-- `out` is what the out parameter holds before the call.
unfoldable pub buffer_read_bip32_path : Buffer → Bip32Path → Bool × Bip32Path × Buffer
unfolding bip32_path_read buffer_seek_cur
buffer_read_bip32_path b out =
    let (done, out') = bip32_path_read (drop b.offset b.ptr) (sub_size b.size b.offset) out in
    if done then (true, out', (buffer_seek_cur b (1 + 4 * out'.length)).1) else (false, out', b)

-- memmove of `bytes` to the start of the array `dst`.
abbrev pub copy_to : List ℕ → List ℕ → List ℕ
copy_to bytes dst = bytes ++ drop (length bytes) dst

unfoldable pub buffer_read_bytes : Buffer → List ℕ → ℕ → ℕ → Bool × List ℕ × Buffer
unfolding buffer_seek_cur
buffer_read_bytes b out out_len len =
    if ltb (sub_size b.size b.offset) len || ltb out_len len
    then (false, out, b)
    else (true, copy_to (take len (drop b.offset b.ptr)) out, (buffer_seek_cur b len).1)

unfoldable pub buffer_copy : Buffer → List ℕ → ℕ → Bool × List ℕ
buffer_copy b out out_len =
    if ltb out_len (sub_size b.size b.offset)
    then (false, out)
    else (true, copy_to (take (sub_size b.size b.offset) (drop b.offset b.ptr)) out)

unfoldable pub buffer_move : Buffer → List ℕ → ℕ → Bool × List ℕ × Buffer
unfolding buffer_copy buffer_seek_cur
buffer_move b out out_len =
    let (done, out') = buffer_copy b out out_len in
    if done then (true, out', (buffer_seek_cur b out_len).1) else (false, out', b)

-- ===== src/Deserialize.antt =====
-- src/transaction/deserialize.c, types.h and opcodes.h: one transaction output out of a byte array.
-- A NULL argument (SW_INTERNAL_ERROR) does not occur: the only caller passes addresses of objects.
pub mod Layout
pub mod RoundTrip
pub mod Accept
pub mod Chunks
use hathor_ledger_app.Prelude.{
  ℕ, ◌+◌, ◌-◌, ◌%◌, ◌^◌, bit_and, Bool, true, false, not, ◌&&◌, ◌||◌, List, [], ◌∷◌, take, drop,
  ltb, ◌==◌, if◌then◌else◌,
}
use hathor_ledger_app.Bytes.{at}
use hathor_ledger_app.Buffer.{
  Buffer, be, sub_size, buffer_read_u8, buffer_read_u16, buffer_read_u32, buffer_read_u64,
  buffer_seek_cur,
}
use hathor_ledger_app.Result.{
  Result, ok, throw, ◌>>=◌, ◌>>◌, require, sw_tx_parsing_fail, tx_state_ready,
}

-- `tx_output_t`
pub record TxOutput : Type 0 where
  pub index : ℕ
  pub value : ℕ
  pub token_data : ℕ
  pub pubkey_hash : List ℕ

abbrev pub pubkey_hash_len : ℕ
pubkey_hash_len = 20

abbrev pub op_dup : ℕ
op_dup = 0x76

abbrev pub op_equalverify : ℕ
op_equalverify = 0x88

abbrev pub op_hash160 : ℕ
op_hash160 = 0xA9

abbrev pub op_checksig : ℕ
op_checksig = 0xAC

-- memcmp of two byte strings of one length, compared with 0.
unfoldable pub mem_eq : List ℕ → List ℕ → Bool
mem_eq [] [] = true
mem_eq (x ∷ xs) (y ∷ ys) = x == y && mem_eq xs ys
mem_eq _ _ = false

unfoldable pub validate_p2pkh_script : Buffer → ℕ → Result (Unit {0})
unfolding mem_eq
validate_p2pkh_script b script_len = do
  require (script_len == 25) sw_tx_parsing_fail
  require (not (ltb (sub_size b.size b.offset) 25)) tx_state_ready
  require
      (mem_eq (op_dup ∷ op_hash160 ∷ pubkey_hash_len ∷ []) (take 3 (drop b.offset b.ptr))
        && mem_eq (op_equalverify ∷ op_checksig ∷ [])
            (take 2 (drop (b.offset + pubkey_hash_len + 3) b.ptr)))
      sw_tx_parsing_fail

-- A reader whose failure means that more data has to come.
abbrev pub or_ready : Bool × ℕ × Buffer → Result (ℕ × Buffer)
or_ready (true, v, b) = ok (v, b)
or_ready (false, v, b) = throw tx_state_ready

-- Returns `*value` and the buffer. The first bit of `ptr[0]` tells an 8 byte value, which is stored
-- negated.
unfoldable pub parse_output_value : Buffer → Result (ℕ × Buffer)
unfolding buffer_read_u32 buffer_read_u64
parse_output_value b =
    if not (bit_and (at b.ptr 0) 0x80 == 0)
    then (do (tmp, b') ← or_ready (buffer_read_u64 b be); ok ((2 ^ 64 - tmp) % 2 ^ 64, b'))
    else or_ready (buffer_read_u32 b be)

-- `parse_output` from the token data on.
unfoldable pub parse_output_rest : ℕ → Buffer → Result (TxOutput × ℕ)
unfolding buffer_read_u8 buffer_read_u16 validate_p2pkh_script buffer_seek_cur
parse_output_rest value b1 = do
  (token_data, b2) ← or_ready (buffer_read_u8 b1)
  (script_len, b3) ← or_ready (buffer_read_u16 b2 be)
  validate_p2pkh_script b3 script_len
  let hash = take pubkey_hash_len (drop (b3.offset + 3) b3.ptr)
  let (moved, b4) = buffer_seek_cur b3 script_len
  require moved sw_tx_parsing_fail
  ok (record { index = 0; value = value; token_data = token_data; pubkey_hash = hash }, b4.offset)

-- Returns `*output`, with the index that it had (0), and the number of bytes read.
unfoldable pub parse_output : List ℕ → ℕ → Result (TxOutput × ℕ)
unfolding parse_output_value parse_output_rest
parse_output input inlen = do
  (value, b1) ← parse_output_value (record { ptr = input; size = inlen; offset = 0 })
  parse_output_rest value b1

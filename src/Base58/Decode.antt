-- ===== src/Base58/Decode.antt =====
-- `base58_decode` of src/common/base58.c. The lists are the parts of its arrays in use: the digits
-- from `start_at` on, and the bytes of `buffer` from `j` on. Before `j` the buffer holds zeros.
pub mod Spells
use hathor_ledger_app.Prelude.{
  ℕ, zero, suc, ◌+◌, ◌-◌, ◌*◌, ◌/◌, ◌%◌, ◌^◌, ◌≤◌, ◌<◌, ◌≡◌, refl, sym, ap, ◌∙◌, Bool, true, false,
  ◌||◌, List, [], ◌∷◌, ◌++◌, Option, none, some, All, All-drop, drop, length, length-drop,
  replicate, length-append, length-replicate, ltb, leb, ◌==◌, if◌then◌else◌, arith, Bool-cases, inl,
  inr,
}
use hathor_ledger_app.Bytes.{IsByte, Bytes, at}
use hathor_ledger_app.Base58.{zero_prefix}
use hathor_ledger_app.Base58.Value.{spelled, spelled-drop_zeros}

abbrev pub base58_table : List ℕ
base58_table =
    0xFF ∷ 0xFF ∷ 0xFF ∷ 0xFF ∷ 0xFF ∷ 0xFF ∷ 0xFF ∷ 0xFF ∷ 0xFF ∷ 0xFF ∷ 0xFF ∷ 0xFF ∷ 0xFF ∷ 0xFF
    ∷ 0xFF ∷ 0xFF ∷ 0xFF ∷ 0xFF ∷ 0xFF ∷ 0xFF ∷ 0xFF ∷ 0xFF ∷ 0xFF ∷ 0xFF ∷ 0xFF ∷ 0xFF ∷ 0xFF
    ∷ 0xFF ∷ 0xFF ∷ 0xFF ∷ 0xFF ∷ 0xFF ∷ 0xFF ∷ 0xFF ∷ 0xFF ∷ 0xFF ∷ 0xFF ∷ 0xFF ∷ 0xFF ∷ 0xFF
    ∷ 0xFF ∷ 0xFF ∷ 0xFF ∷ 0xFF ∷ 0xFF ∷ 0xFF ∷ 0xFF ∷ 0xFF ∷ 0xFF ∷ 0x00 ∷ 0x01 ∷ 0x02 ∷ 0x03
    ∷ 0x04 ∷ 0x05 ∷ 0x06 ∷ 0x07 ∷ 0x08 ∷ 0xFF ∷ 0xFF ∷ 0xFF ∷ 0xFF ∷ 0xFF ∷ 0xFF ∷ 0xFF ∷ 0x09
    ∷ 0x0A ∷ 0x0B ∷ 0x0C ∷ 0x0D ∷ 0x0E ∷ 0x0F ∷ 0x10 ∷ 0xFF ∷ 0x11 ∷ 0x12 ∷ 0x13 ∷ 0x14 ∷ 0x15
    ∷ 0xFF ∷ 0x16 ∷ 0x17 ∷ 0x18 ∷ 0x19 ∷ 0x1A ∷ 0x1B ∷ 0x1C ∷ 0x1D ∷ 0x1E ∷ 0x1F ∷ 0x20 ∷ 0xFF
    ∷ 0xFF ∷ 0xFF ∷ 0xFF ∷ 0xFF ∷ 0xFF ∷ 0x21 ∷ 0x22 ∷ 0x23 ∷ 0x24 ∷ 0x25 ∷ 0x26 ∷ 0x27 ∷ 0x28
    ∷ 0x29 ∷ 0x2A ∷ 0x2B ∷ 0xFF ∷ 0x2C ∷ 0x2D ∷ 0x2E ∷ 0x2F ∷ 0x30 ∷ 0x31 ∷ 0x32 ∷ 0x33 ∷ 0x34
    ∷ 0x35 ∷ 0x36 ∷ 0x37 ∷ 0x38 ∷ 0x39 ∷ 0xFF ∷ 0xFF ∷ 0xFF ∷ 0xFF ∷ 0xFF ∷ []

abbrev pub max_dec_input_size : ℕ
max_dec_input_size = 164

-- The loop that looks the characters up; `none` is its `return -1`.
unfoldable pub decode_digits : List ℕ → Option (List ℕ)
decode_digits [] = some []
decode_digits (c ∷ cs) =
    let rest = decode_digits cs in
    if leb (length base58_table) c || at base58_table c == 0xFF
    then none
    else elim rest [ none ↦ none | some ds ↦ some (at base58_table c ∷ ds) ]

-- The inner loop: the digits divided by 256, and the remainder.
unfoldable pub divide : ℕ → List ℕ → List ℕ × ℕ
divide remainder [] = ([], remainder)
divide remainder (d ∷ ds) =
    let tmp_div = (remainder * 58 + d) % 2 ^ 16 in
    let (quotient, last) = divide (tmp_div % 256) ds in (tmp_div / 256 % 256 ∷ quotient, last)

abbrev pub skip_zero : List ℕ → List ℕ
skip_zero [] = []
skip_zero (d ∷ ds) = if d == 0 then ds else d ∷ ds

-- while (start_at < in_len), a number of rounds; `none` if they do not do.
unfoldable pub decode_loop : ℕ → List ℕ → List ℕ → Option (List ℕ)
decode_loop rounds [] bytes = some bytes
decode_loop zero (d ∷ ds) bytes = none
decode_loop (suc rounds) (d ∷ ds) bytes =
    let (quotient, remainder) = divide 0 (d ∷ ds) in
    decode_loop rounds (skip_zero quotient) (remainder % 256 ∷ bytes)

pub data Decoded : Type 0 where
  minus_one : Decoded
  unfinished : Decoded
  written : List ℕ → Decoded

-- What is written behind the leading zeros, with the test of the room.
unfoldable pub write_decoded : ℕ → ℕ → List ℕ → Decoded
write_decoded zero_count out_len bytes =
    let out = replicate zero_count 0 ++ drop (zero_prefix bytes) bytes in
    if ltb out_len (length out) then minus_one else written out

unfoldable pub base58_decode : List ℕ → ℕ → Decoded
base58_decode input out_len =
    if ltb max_dec_input_size (length input) || ltb (length input) 2
    then minus_one
    else elim (decode_digits input) [
      | none ↦ minus_one
      | some digits ↦ elim (decode_loop (length input) (drop (zero_prefix digits) digits) []) [
        | none ↦ unfinished
        | some bytes ↦ write_decoded (zero_prefix digits) out_len bytes
      ]
    ]

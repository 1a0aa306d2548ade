-- ===== src/Tests/Parse.antt =====
-- The readers and parsers on concrete bytes.
use hathor_ledger_app.Prelude.{
  ℕ, ◌≡◌, ◌≢◌, ◌≤◌, ◌<◌, ◌+◌, ◌*◌, refl, none, List, [], ◌∷◌, replicate, if◌then◌else◌, ltb, arith,
}
use hathor_ledger_app.Bytes.{
  at, read_u16_be, read_u32_be, read_u64_be, write_u16_be, write_u32_be, write_u64_be, read_u16_le,
  read_u32_le, read_u64_le, write_u16_le, write_u32_le, write_u64_le,
}
use hathor_ledger_app.Bytes.RoundTrip.{read-write_uint}
use hathor_ledger_app.Bip32.{zero_path, read_levels, levels_allowed, bip32_path_read}
use hathor_ledger_app.Bip32.Accept.{Allowed, bip32_path_read-Allowed}
use hathor_ledger_app.Buffer.{
  Buffer, be, le, buffer_can_read, buffer_seek_cur, buffer_read_u8, buffer_read_u16,
  buffer_read_u32, buffer_read_u64,
}
use hathor_ledger_app.Buffer.Spell.{uint}
use hathor_ledger_app.Buffer.View.{remaining}
use hathor_ledger_app.Buffer.View
use hathor_ledger_app.Buffer.Refine.{Reads, read_uint_refines}
use hathor_ledger_app.Result.{ok, throw, tx_state_ready}
use hathor_ledger_app.Deserialize.{
  TxOutput, mem_eq, validate_p2pkh_script, parse_output_value, parse_output_rest, parse_output,
}
use hathor_ledger_app.Deserialize.RoundTrip.{long, encode, value_len, parse_output-encode}
use hathor_ledger_app.Deserialize.Accept.{Accepted, width_of, value_at, parse_output-Accepted}
use hathor_ledger_app.Token.{TokenData, find_index, find_token_registry_index}
use hathor_ledger_app.Token.Registry.{
  Holds, find_token_registry_index_sound, find_token_registry_index_complete,
}
use hathor_ledger_app.Tests.{change_bytes}

abbrev nine : List ℕ
nine = 1 ∷ 2 ∷ 3 ∷ 4 ∷ 5 ∷ 6 ∷ 7 ∷ 8 ∷ 9 ∷ []

read-write_uint_example :
    (read_u16_be (write_u16_be nine 3 0x1234) 3 ≡ 0x1234)
    × (read_u16_le (write_u16_le nine 3 0x1234) 3 ≡ 0x1234)
    × (read_u32_be (write_u32_be nine 3 0x12345678) 3 ≡ 0x12345678)
    × (read_u32_le (write_u32_le nine 3 0x12345678) 3 ≡ 0x12345678)
    × (read_u64_be (write_u64_be nine 1 0x123456789a) 1 ≡ 0x123456789a)
    × (read_u64_le (write_u64_le nine 1 0x123456789a) 1 ≡ 0x123456789a)
read-write_uint_example =
    read-write_uint nine 3 3 1 0x1234 0x12345678 0x123456789a (omega arith) (omega arith)
      (omega arith) (omega arith) (omega arith) (omega arith)

-- Eight unread bytes.
abbrev buffer : Buffer
buffer = record { ptr = nine; size = 9; offset = 1 }

buffer-IsValid : View.IsValid buffer
buffer-IsValid = record {
  within = omega arith;
  backed = omega arith;
  small = omega arith;
  bytes = (
    omega arith,
    (
      omega arith,
      (
        omega arith,
        (
          omega arith,
          (omega arith, (omega arith, (omega arith, (omega arith, (omega arith, tt))))),
        ),
      ),
    ),
  );
}

read_uint_refines_example :
    Reads buffer (buffer_read_u8 buffer) (uint be 1 (remaining buffer))
    × Reads buffer (buffer_read_u16 buffer le) (uint le 2 (remaining buffer))
    × Reads buffer (buffer_read_u32 buffer le) (uint le 4 (remaining buffer))
    × Reads buffer (buffer_read_u64 buffer le) (uint le 8 (remaining buffer))
read_uint_refines_example = read_uint_refines buffer le buffer-IsValid

-- m/44'/280'/0'/0/7
abbrev path_bytes : List ℕ
path_bytes =
    5 ∷ 0x80 ∷ 0 ∷ 0 ∷ 44 ∷ 0x80 ∷ 0 ∷ 1 ∷ 24 ∷ 0x80 ∷ 0 ∷ 0 ∷ 0 ∷ 0 ∷ 0 ∷ 0 ∷ 0 ∷ 0 ∷ 0 ∷ 0 ∷ 7
    ∷ []

bip32_path_read-Allowed_example :
    Allowed (bip32_path_read path_bytes 21 zero_path).1
    × ((bip32_path_read path_bytes 21 zero_path).1.length ≡ at path_bytes 0)
    × (at path_bytes 0 * 4 + 1 ≤ 21)
unfolding bip32_path_read read_levels levels_allowed read_u32_be
bip32_path_read-Allowed_example = bip32_path_read-Allowed path_bytes 21 zero_path refl

abbrev rich : TxOutput
rich = record { index = 0; value = 5000000000; token_data = 1; pubkey_hash = replicate 20 9 }

parse_output-encode_example : parse_output (encode long rich nine) 45 ≡ (
    if ltb 45 (value_len long + 28)
    then throw tx_state_ready
    else ok (record rich { index = 0 }, value_len long + 28))
parse_output-encode_example =
    parse_output-encode long rich nine 45
      (record { value = (omega arith, omega arith); token_data = omega arith; hash = refl })
      (omega arith)

abbrev change_output : TxOutput
change_output = record { index = 0; value = 300; token_data = 0; pubkey_hash = 3 ∷ replicate 19 7 }

parse_output-Accepted_example :
    Accepted change_bytes 32 (width_of (at change_bytes 0)) (value_at change_bytes) change_output 32
unfolding parse_output parse_output_rest parse_output_value validate_p2pkh_script mem_eq
    buffer_read_u8 buffer_read_u16 buffer_read_u32 buffer_read_u64 buffer_seek_cur buffer_can_read
    read_u16_be read_u32_be read_u64_be
parse_output-Accepted_example =
    parse_output-Accepted change_bytes 32 change_output 32 (omega arith) refl

abbrev two_tokens : TokenData
two_tokens = record {
  len = 2;
  tokens =
      record { uid = replicate 32 1; symbol = 65 ∷ 0 ∷ [] }
      ∷ record { uid = replicate 32 2; symbol = 66 ∷ 0 ∷ [] }
      ∷ [];
}

find_token_registry_index_sound_example : (1 < 2) × Holds two_tokens.tokens 1 (replicate 32 2)
unfolding find_token_registry_index find_index mem_eq
find_token_registry_index_sound_example =
    find_token_registry_index_sound two_tokens (replicate 32 2) 1 refl

find_token_registry_index_complete_example :
    find_token_registry_index two_tokens (replicate 32 2) ≢ none
find_token_registry_index_complete_example =
    find_token_registry_index_complete two_tokens (replicate 32 2) 1 (omega arith) (omega arith)
      refl

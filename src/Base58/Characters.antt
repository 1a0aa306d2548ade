-- ===== src/Base58/Characters.antt =====
-- `base58_decode` on the characters of base 58 digits.
use hathor_ledger_app.Prelude.{ℕ, ◌≤◌, ◌≡◌, ◌++◌, sym, List, All, map, length, replicate, arith}
use hathor_ledger_app.Bytes.{Bytes, at}
use hathor_ledger_app.Base58.{zero_prefix, base58_alphabet}
use hathor_ledger_app.Base58.Value.{spelled}
use hathor_ledger_app.Base58.Decode.{base58_decode, written}
use hathor_ledger_app.Base58.Decode.Spells.{IsDigit58, base58_decode-spells}
use hathor_ledger_app.Base58.RoundTrip.{decode_digits-map, length-characters}

-- A text of 2 to 164 characters of the alphabet is decoded, in the room that its length needs: for
-- every leading '1', which is the digit 0, a zero, then the bytes, of which the first is not 0, that
-- spell the number that the digits of the characters spell in base 58. The loop always ends.
pub base58_decode-characters :
    (digits : List ℕ) (out_len : ℕ)
    → All IsDigit58 digits
    → 2 ≤ length digits
    → length digits ≤ 164
    → length digits ≤ out_len
    → (bytes : List ℕ) × (base58_decode (map (at base58_alphabet) digits) out_len
        ≡ written (replicate (zero_prefix digits) 0 ++ bytes))
      × Bytes bytes
      × (zero_prefix bytes ≡ 0)
      × (spelled 256 0 bytes ≡ spelled 58 0 digits)
base58_decode-characters digits out_len all_digits least most room =
    let n = length-characters digits in
    base58_decode-spells (map (at base58_alphabet) digits) digits out_len (omega arith)
      (omega arith) (decode_digits-map digits all_digits) all_digits (sym n) (omega arith)

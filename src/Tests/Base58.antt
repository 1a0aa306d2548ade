-- ===== src/Tests/Base58.antt =====
-- Base 58 on concrete bytes.
use hathor_ledger_app.Prelude.{
  ℕ, ◌≡◌, ◌≤◌, ◌<◌, ◌+◌, ◌++◌, ◌∷◌, refl, List, [], some, All, map, replicate, length, arith,
}
use hathor_ledger_app.Bytes.{Bytes, at}
use hathor_ledger_app.Base58.{base58_alphabet, zero_prefix, base58_encode, encode_loop, carry_loop}
use hathor_ledger_app.Base58.Value.{spelled, digits_for}
use hathor_ledger_app.Base58.Encode.{base58_encode-spells}
use hathor_ledger_app.Base58.Decode.{base58_decode, written}
use hathor_ledger_app.Base58.Characters.{base58_decode-characters}
use hathor_ledger_app.Base58.RoundTrip.{base58_decode-encode}

-- Two zeros and a number.
abbrev bytes : List ℕ
bytes = 0 ∷ 0 ∷ 40 ∷ 127 ∷ 180 ∷ 205 ∷ []

bytes-Bytes : Bytes bytes
bytes-Bytes =
    (omega arith, (omega arith, (omega arith, (omega arith, (omega arith, (omega arith, tt))))))

-- The text of the bytes 0, 0 and 1.
abbrev text : List ℕ
text = b'1' ∷ b'1' ∷ b'2' ∷ []

base58_encode-spells_example :
    (digits : List ℕ) × (base58_encode bytes 20
      ≡ some (replicate (zero_prefix bytes) b'1' ++ map (at base58_alphabet) digits))
    × All (λ d. d < 58) digits
    × (zero_prefix digits ≡ 0)
    × (spelled 58 0 digits ≡ spelled 256 0 bytes)
    × (zero_prefix bytes + length digits ≤ digits_for (length bytes))
base58_encode-spells_example = base58_encode-spells bytes 20 bytes-Bytes (omega arith) (omega arith)

base58_decode-characters_example :
    (out : List ℕ) × (base58_decode text 3 ≡ written (0 ∷ 0 ∷ out))
    × Bytes out
    × (zero_prefix out ≡ 0)
    × (spelled 256 0 out ≡ 1)
unfolding zero_prefix
base58_decode-characters_example =
    base58_decode-characters (0 ∷ 0 ∷ 1 ∷ []) 3 (omega arith, (omega arith, (omega arith, tt)))
      (omega arith) (omega arith) (omega arith)

base58_decode-encode_example : base58_decode text 3 ≡ written (0 ∷ 0 ∷ 1 ∷ [])
unfolding base58_encode zero_prefix encode_loop carry_loop
base58_decode-encode_example =
    base58_decode-encode (0 ∷ 0 ∷ 1 ∷ []) text 20 3 (omega arith, (omega arith, (omega arith, tt)))
      (omega arith) (omega arith) refl (omega arith) (omega arith)

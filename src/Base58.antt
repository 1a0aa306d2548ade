-- ===== src/Base58.antt =====
-- src/common/base58.c: `base58_encode`. Its array `buffer` has `output_size` elements here: the
-- rest of the C array is not touched.
pub mod Value
pub mod Carry
pub mod Encode
pub mod Decode
pub mod RoundTrip
pub mod Characters
use hathor_ledger_app.Prelude.{
  ℕ, zero, suc, ◌+◌, ◌-◌, ◌*◌, ◌/◌, ◌%◌, ◌^◌, ◌&&◌, Option, none, some, List, [], ◌∷◌, ◌++◌, map,
  set, drop, length, replicate, ltb, leb, ◌==◌, if◌then◌else◌,
}
use hathor_ledger_app.Bytes.{at}
use hathor_ledger_app.Buffer.{sub_size}
use hathor_ledger_app.Format.{codes}

abbrev pub base58_alphabet : List ℕ
base58_alphabet = codes "123456789ABCDEFGHJKLMNPQRSTUVWXYZabcdefghijkmnopqrstuvwxyz"

abbrev pub max_enc_input_size : ℕ
max_enc_input_size = 120

-- The number of leading zeros.
unfoldable pub zero_prefix : List ℕ → ℕ
zero_prefix [] = 0
zero_prefix (x ∷ xs) = let rest = zero_prefix xs in if x == 0 then suc rest else 0

-- The inner loop at index `j`, one round for each index down to 0. Gives the buffer and the value
-- of `j` when the loop ends, which is the largest `size_t` if it ran past 0.
unfoldable pub carry_loop : ℕ → ℕ → ℕ → List ℕ → List ℕ × ℕ
carry_loop zero carry stop_at buffer = (buffer, 2 ^ 32 - 1)
carry_loop (suc j) carry stop_at buffer =
    let sum = carry + 256 * at buffer j in
    let next = set buffer j (sum % 58) in
    let rest = carry_loop j (sum / 58) stop_at next in
    if leb j (sub_size stop_at 1) && sum / 58 == 0 then (next, j) else rest

-- The outer loop over the bytes after the leading zeros.
unfoldable pub encode_loop : List ℕ → ℕ → List ℕ → List ℕ
unfolding carry_loop
encode_loop [] stop_at buffer = buffer
encode_loop (x ∷ xs) stop_at buffer =
    let (buffer', j) = carry_loop (length buffer) x stop_at buffer in encode_loop xs j buffer'

-- The text; `none` is the result -1.
unfoldable pub base58_encode : List ℕ → ℕ → Option (List ℕ)
unfolding zero_prefix encode_loop
base58_encode input out_len =
    if ltb max_enc_input_size (length input)
    then none
    else (let zero_count = zero_prefix input in
        let output_size = (length input - zero_count) * 138 / 100 + 1 in
        let buffer =
          encode_loop (drop zero_count input) (output_size - 1) (replicate output_size 0) in
        let digits = drop (zero_prefix buffer) buffer in
        if ltb out_len (zero_count + length digits)
        then none
        else some (replicate zero_count (at base58_alphabet 0) ++ map (at base58_alphabet) digits))

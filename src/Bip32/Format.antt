-- ===== src/Bip32/Format.antt =====
-- `bip32_path_format` of src/common/bip32.c: a derivation path as text. `snprintf` writes what fits
-- in the room it is given, less one for the terminator.
pub mod Path
use hathor_ledger_app.Prelude.{
  ℕ, ◌+◌, ◌-◌, ◌||◌, bit_and, Option, none, some, List, [], ◌∷◌, ◌++◌, take, length, ltb, leb, ◌==◌,
  if◌then◌else◌,
}
use hathor_ledger_app.Bip32.{max_bip32_path}
use hathor_ledger_app.Format.Decimal.{decimal}

infixr 10 ◌>>=◌
abbrev ◌>>=◌ : Option (List ℕ) → (List ℕ → Option (List ℕ)) → Option (List ℕ)
◌>>=◌ none f = none
◌>>=◌ (some out) f = f out

-- `snprintf` of a text behind what `out` holds, with the test of what it wrote.
unfoldable pub print : ℕ → List ℕ → List ℕ → Option (List ℕ)
print out_len out text =
    let room = out_len - length out in
    let written = take (room - 1) text in
    if length written == 0 || leb room (length written) then none else some (out ++ written)

-- The rounds of the loop from a level on; `out` is the text so far.
unfoldable pub format_levels : List ℕ → ℕ → List ℕ → Option (List ℕ)
format_levels [] out_len out = some out
format_levels (x ∷ xs) out_len out = do
  digits ← print out_len out (decimal (bit_and x 0x7FFFFFFF))
  hardened ← if bit_and x 0x80000000 == 0 then some digits else print out_len digits (b'\'' ∷ [])
  separated ← if length xs == 0 then some hardened else print out_len hardened (b'/' ∷ [])
  format_levels xs out_len separated

-- `none` is the result false.
unfoldable pub bip32_path_format : List ℕ → ℕ → ℕ → Option (List ℕ)
bip32_path_format path path_len out_len =
    if path_len == 0 || ltb max_bip32_path path_len
    then none
    else format_levels (take path_len path) out_len []

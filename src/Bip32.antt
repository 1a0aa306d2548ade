-- ===== src/Bip32.antt =====
-- src/common/bip32.h and bip32.c: derivation paths. `size_t` values are plain numbers here: the
-- lengths that occur are below 2 ^ 32.
pub mod Accept
pub mod Format
use hathor_ledger_app.Prelude.{
  ℕ, zero, suc, ◌+◌, ◌*◌, ◌^◌, Bool, true, false, not, ◌&&◌, ◌||◌, List, [], ◌∷◌, set, ltb,
  if◌then◌else◌,
}
use hathor_ledger_app.Bytes.{at, read_u32_be}

abbrev pub max_derivation_index : ℕ
max_derivation_index = 2 ^ 20

abbrev pub max_bip32_path : ℕ
max_bip32_path = 5

-- `bip32_path_t`; `path` has `max_bip32_path` elements.
pub record Bip32Path : Type 0 where
  pub length : ℕ
  pub path : List ℕ

-- The value of `bip32_path_t` after `explicit_bzero`.
abbrev pub zero_path : Bip32Path
zero_path = record { length = 0; path = 0 ∷ 0 ∷ 0 ∷ 0 ∷ 0 ∷ [] }

-- The `for` loop of `bip32_path_read`, with `rounds` left; the Boolean is false on its `return`.
unfoldable pub read_levels : ℕ → ℕ → ℕ → List ℕ → ℕ → Bip32Path → Bool × Bip32Path
read_levels zero i offset input in_len out = (true, out)
read_levels (suc rounds) i offset input in_len out =
    let rest =
      read_levels rounds (i + 1) (offset + 4) input in_len
        (record out { path = set out.path i (read_u32_be input offset) }) in
    if ltb in_len offset then (false, out) else rest

-- The checks on the index and change levels.
unfoldable pub levels_allowed : Bip32Path → Bool
levels_allowed out =
    not (ltb 4 out.length && ltb max_derivation_index (at out.path 4))
    && not (ltb 3 out.length && ltb 1 (at out.path 3))

-- Returns the result with what `*out` holds after the call.
unfoldable pub bip32_path_read : List ℕ → ℕ → Bip32Path → Bool × Bip32Path
unfolding read_levels levels_allowed
bip32_path_read input in_len out =
    if ltb in_len 1 || ltb max_bip32_path (at input 0) || ltb in_len (at input 0 * 4 + 1)
    then (false, out)
    else (let (done, out') =
          read_levels (at input 0) 0 1 input in_len (record out { length = at input 0 }) in
        (done && levels_allowed out', out'))

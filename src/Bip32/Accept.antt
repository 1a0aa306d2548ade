-- ===== src/Bip32/Accept.antt =====
-- Which derivation paths `bip32_path_read` accepts.
use hathor_ledger_app.Prelude.{ℕ, zero, suc, ◌+◌, ◌*◌, ◌≤◌, ◌<◌, ◌≡◌, refl, true, List, set, arith}
use hathor_ledger_app.Bytes.{at, read_u32_be}
use hathor_ledger_app.Bip32.{
  Bip32Path, max_bip32_path, max_derivation_index, read_levels, levels_allowed, bip32_path_read,
}

-- A path of at most five levels, whose change level is 0 or 1 and whose address level is bounded.
pub record Allowed (p : Bip32Path) : Type 0 where
  pub levels : p.length ≤ max_bip32_path
  pub change : 3 < p.length → at p.path 3 ≤ 1
  pub address : 4 < p.length → at p.path 4 ≤ max_derivation_index

length-read_levels :
    (rounds i offset : ℕ) (input : List ℕ) (in_len : ℕ) (out : Bip32Path)
    → (read_levels rounds i offset input in_len out).1.length ≡ out.length
unfolding read_levels
length-read_levels zero i offset input in_len out = refl
length-read_levels (suc rounds) i offset input in_len out = ground (
  arith,
  length-read_levels rounds (i + 1) (offset + 4) input in_len
      (record out { path = set out.path i (read_u32_be input offset) }),
)

-- A path that is read from a command, whatever its bytes, has at most five levels, 0 or 1 at the
-- change level and no more than 2 ^ 20 at the address level; it has the announced number of levels,
-- and all of its bytes are there.
pub bip32_path_read-Allowed :
    (input : List ℕ) (in_len : ℕ) (out : Bip32Path)
    → (bip32_path_read input in_len out).0 ≡ true
    → Allowed (bip32_path_read input in_len out).1
      × ((bip32_path_read input in_len out).1.length ≡ at input 0)
      × (at input 0 * 4 + 1 ≤ in_len)
unfolding bip32_path_read levels_allowed
bip32_path_read-Allowed input in_len out e =
    let kept =
      length-read_levels (at input 0) 0 1 input in_len (record out { length = at input 0 }) in
    (
      record {
        levels = ground (arith, kept);
        change = λ h. ground (arith, kept);
        address = λ h. ground (arith, kept);
      },
      ground (arith, kept),
      ground (arith, kept),
    )

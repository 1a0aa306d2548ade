-- ===== src/Format.antt =====
-- src/common/format.c: numbers and bytes as text. A C string is the list of its characters. A
-- buffer that is too short makes a formatter return false (`none`); `format_u64` can also write past
-- its end (`fault`).
pub mod Reverse
pub mod Decimal
pub mod Digits
pub mod Amount
pub mod Signed
pub mod Fixed
use Prim.Native.Char.{code}
use Prim.Native.String.{String}
use hathor_ledger_app.Prelude.{
  ℕ, zero, suc, ◌+◌, ◌-◌, ◌*◌, ◌/◌, ◌%◌, ◌^◌, bit_and, Option, none, some, List, [], ◌∷◌, ◌++◌, set,
  length, ltb, leb, ◌==◌, if◌then◌else◌,
}
use hathor_ledger_app.Result.{Result, ok, throw, fault}
use hathor_ledger_app.Bytes.{at}

abbrev pub codes : String → List ℕ
codes String.[] = []
codes (String.◌∷◌ c s) = code c ∷ codes s

-- The loop that reverses a text in place: swaps the characters at `j` and `i` while j < i.
unfoldable pub swap_ends : ℕ → List ℕ → ℕ → ℕ → List ℕ
swap_ends zero out j i = out
swap_ends (suc rounds) out j i =
    let rest = swap_ends rounds (set (set out j (at out i)) i (at out j)) (j + 1) (i - 1) in
    if ltb j i then rest else out

-- `while (in > 9)` of `format_u64`: the digits written so far, the last one first, with what is
-- left of the number. `room` is `outLen` after its decrement.
unfoldable pub u64_digits : ℕ → ℕ → ℕ → List ℕ → Option (List ℕ)
u64_digits zero room n out = none
u64_digits (suc fuel) room n out =
    let next = out ++ ((n % 10 + b'0') ∷ []) in
    let rest = u64_digits fuel room (n / 10) next in
    if ltb 9 n
    then (if ltb room (length next + 1) then none else rest)
    else some (out ++ ((n + b'0') ∷ []))

-- A 64 bit number has at most 20 digits. The terminator is written behind the last digit, also where
-- the buffer ends there.
unfoldable pub format_u64 : ℕ → ℕ → Result (Option (List ℕ))
format_u64 out_len n = if out_len == 0 then ok none else elim (u64_digits 20 (out_len - 1) n []) [
  | none ↦ ok none
  | some out ↦
      if leb out_len (length out)
      then fault
      else ok (some (swap_ends (length out) out 0 (length out - 1)))
]

abbrev pub hex_digits : List ℕ
hex_digits = codes "0123456789ABCDEF"

unfoldable pub hex_loop : List ℕ → List ℕ
hex_loop [] = []
hex_loop (x ∷ xs) =
    at hex_digits (bit_and x 0xF0 / 2 ^ 4) ∷ at hex_digits (bit_and x 0x0F) ∷ hex_loop xs

-- `none` is the result -1.
unfoldable pub format_hex : List ℕ → ℕ → Option (List ℕ)
unfolding hex_loop
format_hex input out_len =
    if ltb out_len (2 * length input + 1) then none else some (hex_loop input)

-- The `do` loop of `itoa` in base 10 on a number that is not negative.
unfoldable pub itoa_digits : ℕ → ℕ → List ℕ → List ℕ
itoa_digits zero value out = out
itoa_digits (suc fuel) value out =
    let next = out ++ ((b'0' + (value - value / 10 * 10)) ∷ []) in
    let rest = itoa_digits fuel (value / 10) next in if value / 10 == 0 then next else rest

-- An `int` has at most 10 digits.
unfoldable pub itoa : ℕ → List ℕ
itoa value = let out = itoa_digits 10 value [] in swap_ends (length out) out 0 (length out - 1)

-- The loop of `format_value` over the digits, with its counter `c`.
unfoldable pub group_digits : List ℕ → ℕ → List ℕ
group_digits [] c = []
group_digits (p ∷ ps) c =
    let rest = group_digits ps ((c + 1) % 3) in p ∷ (if c == 1 then b',' ∷ rest else rest)

-- *--out = 0
unfoldable pub drop_last : List ℕ → List ℕ
drop_last [] = []
drop_last (x ∷ []) = []
drop_last (x ∷ y ∷ ys) = x ∷ drop_last (y ∷ ys)

-- An amount in hundredths. `format_u64` cannot fail here: `buf` has 35 bytes.
unfoldable pub format_value : ℕ → List ℕ
format_value value = elim (format_u64 35 (value / 100)) [
  | throw e ↦ []
  | fault ↦ []
  | ok none ↦ []
  | ok (some buf) ↦
      drop_last (group_digits buf (2 - length buf % 3))
      ++ (b'.' ∷ (if ltb (value % 100) 10 then b'0' ∷ itoa (value % 100) else itoa (value % 100)))
]

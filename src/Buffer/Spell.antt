-- ===== src/Buffer/Spell.antt =====
-- Integers taken off a byte string: what the readers of buffer.c are compared with.
use hathor_ledger_app.Prelude.{
  ℕ, ◌≤◌, ◌≡◌, Option, none, some, List, [], ◌∷◌, length, take, drop, leb, if◌then◌else◌, arith,
}
use hathor_ledger_app.Bytes.{at}
use hathor_ledger_app.Bytes.Value.{◌▹◌}
use hathor_ledger_app.Buffer.{Endianness, be, le}

-- The number that a byte string spells.
pub value_from : ℕ → List ℕ → ℕ
value_from acc [] = acc
value_from acc (x ∷ xs) = value_from (acc ▹ x) xs

pub be_value : List ℕ → ℕ
unfolding value_from
be_value xs = value_from 0 xs

pub le_value : List ℕ → ℕ
le_value [] = 0
le_value (x ∷ xs) = le_value xs ▹ x

unfoldable pub value_of : Endianness → List ℕ → ℕ
unfolding be_value le_value
value_of be xs = be_value xs
value_of le xs = le_value xs

-- Takes an integer of `n` bytes off a byte string, if there are so many.
unfoldable pub uint : Endianness → ℕ → List ℕ → Option (ℕ × List ℕ)
uint e n xs = if leb n (length xs) then some (value_of e (take n xs), drop n xs) else none

pub be_bytes_2 : (xs : List ℕ) → 2 ≤ length xs → value_of be (take 2 xs) ≡ at xs 0 ▹ at xs 1
unfolding value_of
be_bytes_2 (a ∷ b ∷ xs) enough = omega arith
be_bytes_2 _ enough = absurd (omega arith)

pub be_bytes_4 :
    (xs : List ℕ) → 4 ≤ length xs → value_of be (take 4 xs) ≡ at xs 0 ▹ at xs 1 ▹ at xs 2 ▹ at xs 3
unfolding value_of
be_bytes_4 (a ∷ b ∷ c ∷ d ∷ xs) enough = omega arith
be_bytes_4 _ enough = absurd (omega arith)

pub be_bytes_8 :
    (xs : List ℕ)
    → 8 ≤ length xs
    → value_of be (take 8 xs)
      ≡ at xs 0 ▹ at xs 1 ▹ at xs 2 ▹ at xs 3 ▹ at xs 4 ▹ at xs 5 ▹ at xs 6 ▹ at xs 7
unfolding value_of
be_bytes_8 (a ∷ b ∷ c ∷ d ∷ e ∷ f ∷ g ∷ h ∷ xs) enough = omega arith
be_bytes_8 _ enough = absurd (omega arith)

pub le_bytes_2 : (xs : List ℕ) → 2 ≤ length xs → value_of le (take 2 xs) ≡ at xs 1 ▹ at xs 0
unfolding value_of
le_bytes_2 (a ∷ b ∷ xs) enough = omega arith
le_bytes_2 _ enough = absurd (omega arith)

pub le_bytes_4 :
    (xs : List ℕ) → 4 ≤ length xs → value_of le (take 4 xs) ≡ at xs 3 ▹ at xs 2 ▹ at xs 1 ▹ at xs 0
unfolding value_of
le_bytes_4 (a ∷ b ∷ c ∷ d ∷ xs) enough = omega arith
le_bytes_4 _ enough = absurd (omega arith)

pub le_bytes_8 :
    (xs : List ℕ)
    → 8 ≤ length xs
    → value_of le (take 8 xs)
      ≡ at xs 7 ▹ at xs 6 ▹ at xs 5 ▹ at xs 4 ▹ at xs 3 ▹ at xs 2 ▹ at xs 1 ▹ at xs 0
unfolding value_of
le_bytes_8 (a ∷ b ∷ c ∷ d ∷ e ∷ f ∷ g ∷ h ∷ xs) enough = omega arith
le_bytes_8 _ enough = absurd (omega arith)

pub be_bytes_1 : (xs : List ℕ) → 1 ≤ length xs → value_of be (take 1 xs) ≡ at xs 0
unfolding value_of
be_bytes_1 (a ∷ xs) enough = omega arith
be_bytes_1 _ enough = absurd (omega arith)

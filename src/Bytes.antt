-- ===== src/Bytes.antt =====
-- src/common/read.c and src/common/write.c: integers as bytes in either order. A byte array is a
-- list of numbers; the theorems assume or prove that each is below 256 (`IsByte`).
pub mod Value
pub mod RoundTrip
use hathor_ledger_app.Prelude.{ℕ, ◌+◌, ◌*◌, ◌/◌, ◌%◌, ◌^◌, ◌<◌, bit_or, List, get_or, set, All}

abbrev pub IsByte : ℕ → Type 0
IsByte b = b < 256

abbrev pub Bytes : List ℕ → Type 0
Bytes = All IsByte

-- ptr[i]. The buffer functions never call it out of range.
abbrev pub at : List ℕ → ℕ → ℕ
at p i = get_or p i 0

-- (uintW_t) x << k
abbrev pub shl : ℕ → ℕ → ℕ → ℕ
shl w x k = x * 2 ^ k % 2 ^ w

-- (uint8_t)(x >> k)
abbrev pub byte_of : ℕ → ℕ → ℕ
byte_of x k = x / 2 ^ k % 256

infixl 60 ◌or◌
abbrev ◌or◌ : ℕ → ℕ → ℕ
◌or◌ = bit_or

unfoldable pub read_u16_be : List ℕ → ℕ → ℕ
read_u16_be ptr offset = (shl 32 (at ptr (offset + 0)) 8 or shl 32 (at ptr (offset + 1)) 0) % 2 ^ 16

unfoldable pub read_u32_be : List ℕ → ℕ → ℕ
read_u32_be ptr offset =
    shl 32 (at ptr (offset + 0)) 24
    or shl 32 (at ptr (offset + 1)) 16
    or shl 32 (at ptr (offset + 2)) 8
    or shl 32 (at ptr (offset + 3)) 0

unfoldable pub read_u64_be : List ℕ → ℕ → ℕ
read_u64_be ptr offset =
    shl 64 (at ptr (offset + 0)) 56
    or shl 64 (at ptr (offset + 1)) 48
    or shl 64 (at ptr (offset + 2)) 40
    or shl 64 (at ptr (offset + 3)) 32
    or shl 64 (at ptr (offset + 4)) 24
    or shl 64 (at ptr (offset + 5)) 16
    or shl 64 (at ptr (offset + 6)) 8
    or shl 64 (at ptr (offset + 7)) 0

unfoldable pub read_u16_le : List ℕ → ℕ → ℕ
read_u16_le ptr offset = (shl 32 (at ptr (offset + 0)) 0 or shl 32 (at ptr (offset + 1)) 8) % 2 ^ 16

unfoldable pub read_u32_le : List ℕ → ℕ → ℕ
read_u32_le ptr offset =
    shl 32 (at ptr (offset + 0)) 0
    or shl 32 (at ptr (offset + 1)) 8
    or shl 32 (at ptr (offset + 2)) 16
    or shl 32 (at ptr (offset + 3)) 24

unfoldable pub read_u64_le : List ℕ → ℕ → ℕ
read_u64_le ptr offset =
    shl 64 (at ptr (offset + 0)) 0
    or shl 64 (at ptr (offset + 1)) 8
    or shl 64 (at ptr (offset + 2)) 16
    or shl 64 (at ptr (offset + 3)) 24
    or shl 64 (at ptr (offset + 4)) 32
    or shl 64 (at ptr (offset + 5)) 40
    or shl 64 (at ptr (offset + 6)) 48
    or shl 64 (at ptr (offset + 7)) 56

-- The writes return the array that they leave behind.
unfoldable pub write_u16_be : List ℕ → ℕ → ℕ → List ℕ
write_u16_be ptr offset value =
    let p0 = set ptr (offset + 0) (byte_of value 8) in set p0 (offset + 1) (byte_of value 0)

unfoldable pub write_u32_be : List ℕ → ℕ → ℕ → List ℕ
write_u32_be ptr offset value =
    let p0 = set ptr (offset + 0) (byte_of value 24) in
    let p1 = set p0 (offset + 1) (byte_of value 16) in
    let p2 = set p1 (offset + 2) (byte_of value 8) in set p2 (offset + 3) (byte_of value 0)

unfoldable pub write_u64_be : List ℕ → ℕ → ℕ → List ℕ
write_u64_be ptr offset value =
    let p0 = set ptr (offset + 0) (byte_of value 56) in
    let p1 = set p0 (offset + 1) (byte_of value 48) in
    let p2 = set p1 (offset + 2) (byte_of value 40) in
    let p3 = set p2 (offset + 3) (byte_of value 32) in
    let p4 = set p3 (offset + 4) (byte_of value 24) in
    let p5 = set p4 (offset + 5) (byte_of value 16) in
    let p6 = set p5 (offset + 6) (byte_of value 8) in set p6 (offset + 7) (byte_of value 0)

unfoldable pub write_u16_le : List ℕ → ℕ → ℕ → List ℕ
write_u16_le ptr offset value =
    let p0 = set ptr (offset + 0) (byte_of value 0) in set p0 (offset + 1) (byte_of value 8)

unfoldable pub write_u32_le : List ℕ → ℕ → ℕ → List ℕ
write_u32_le ptr offset value =
    let p0 = set ptr (offset + 0) (byte_of value 0) in
    let p1 = set p0 (offset + 1) (byte_of value 8) in
    let p2 = set p1 (offset + 2) (byte_of value 16) in set p2 (offset + 3) (byte_of value 24)

unfoldable pub write_u64_le : List ℕ → ℕ → ℕ → List ℕ
write_u64_le ptr offset value =
    let p0 = set ptr (offset + 0) (byte_of value 0) in
    let p1 = set p0 (offset + 1) (byte_of value 8) in
    let p2 = set p1 (offset + 2) (byte_of value 16) in
    let p3 = set p2 (offset + 3) (byte_of value 24) in
    let p4 = set p3 (offset + 4) (byte_of value 32) in
    let p5 = set p4 (offset + 5) (byte_of value 40) in
    let p6 = set p5 (offset + 6) (byte_of value 48) in set p6 (offset + 7) (byte_of value 56)

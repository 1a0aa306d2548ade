-- ===== src/Bytes/RoundTrip.antt =====
-- write.c against read.c: what is written is what is read back, and nothing else changes.
use hathor_ledger_app.Prelude.{
  ℕ, zero, suc, ◌+◌, ◌≤◌, ◌<◌, ◌^◌, ◌≡◌, ◌≢◌, ◌⊎◌, inl, refl, ap, ◌∙◌, List, [], ◌∷◌, set, length,
  length-set, arith,
}
use hathor_ledger_app.Bytes.{
  at, byte_of, read_u16_be, read_u32_be, read_u64_be, read_u16_le, read_u32_le, read_u64_le,
  write_u16_be, write_u32_be, write_u64_be, write_u16_le, write_u32_le, write_u64_le,
}
use hathor_ledger_app.Bytes.Value.{
  read_u16_be-eq, read_u32_be-eq, read_u64_be-eq, read_u16_le-eq, read_u32_le-eq, read_u64_le-eq,
}

pub at-set_self : (p : List ℕ) (i v : ℕ) → i < length p → at (set p i v) i ≡ v
at-set_self [] i v h = absurd (omega arith)
at-set_self (x ∷ p) zero v h = refl
at-set_self (x ∷ p) (suc i) v h = at-set_self p i v (omega arith)

pub at-set_ne : (p : List ℕ) (i j v : ℕ) → i ≢ j → at (set p i v) j ≡ at p j
at-set_ne [] i j v h = refl
at-set_ne (x ∷ p) zero zero v h = absurd (h refl)
at-set_ne (x ∷ p) zero (suc j) v h = refl
at-set_ne (x ∷ p) (suc i) zero v h = refl
at-set_ne (x ∷ p) (suc i) (suc j) v h = at-set_ne p i j v (λ e. h (ap suc e))

-- Writes `bs` at `o + i`, `o + i + 1`, ….
abbrev set_bytes : List ℕ → ℕ → ℕ → List ℕ → List ℕ
set_bytes p o i [] = p
set_bytes p o i (b ∷ bs) = set_bytes (set p (o + i) b) o (suc i) bs

at-set_bytes_out :
    (p : List ℕ) (o i : ℕ) (bs : List ℕ) (k : ℕ)
    → (k < o + i) ⊎ (o + i + length bs ≤ k)
    → at (set_bytes p o i bs) k ≡ at p k
at-set_bytes_out p o i [] k h = refl
at-set_bytes_out p o i (b ∷ bs) k h =
    at-set_bytes_out (set p (o + i) b) o (suc i) bs k (omega arith)
    ∙ at-set_ne p (o + i) k b (omega arith)

at-set_bytes :
    (p : List ℕ) (o i : ℕ) (bs : List ℕ) (j k : ℕ)
    → k ≡ o + i + j
    → j < length bs
    → o + i + length bs ≤ length p
    → at (set_bytes p o i bs) k ≡ at bs j
at-set_bytes p o i [] j k e h fits = absurd (omega arith)
at-set_bytes p o i (b ∷ bs) zero k e h fits =
    at-set_bytes_out (set p (o + i) b) o (suc i) bs k (inl (omega arith))
    ∙ ap (at (set p (o + i) b)) (omega arith)
    ∙ at-set_self p (o + i) b (omega arith)
at-set_bytes p o i (b ∷ bs) (suc j) k e h fits =
    at-set_bytes (set p (o + i) b) o (suc i) bs j k (omega arith) (omega arith)
      (omega (arith, length-set p (o + i) b))

module _ (p : List ℕ) (o v : ℕ) where
  -- A number of two bytes that is written big endian inside an array is read back from there.
  read-write_u16_be : o + 2 ≤ length p → v < 2 ^ 16 → read_u16_be (write_u16_be p o v) o ≡ v
  unfolding write_u16_be
  read-write_u16_be fits small =
      let bs : List ℕ = byte_of v 8 ∷ byte_of v 0 ∷ [] in
      read_u16_be-eq (set_bytes p o 0 bs) o (byte_of v 8) (byte_of v 0)
        (at-set_bytes p o 0 bs 0 (o + 0) (omega arith) (omega arith) (omega arith))
        (at-set_bytes p o 0 bs 1 (o + 1) (omega arith) (omega arith) (omega arith)) (omega arith)
        (omega arith)
      ∙ omega arith

  -- A number of two bytes that is written little endian inside an array is read back from there.
  read-write_u16_le : o + 2 ≤ length p → v < 2 ^ 16 → read_u16_le (write_u16_le p o v) o ≡ v
  unfolding write_u16_le
  read-write_u16_le fits small =
      let bs : List ℕ = byte_of v 0 ∷ byte_of v 8 ∷ [] in
      read_u16_le-eq (set_bytes p o 0 bs) o (byte_of v 0) (byte_of v 8)
        (at-set_bytes p o 0 bs 0 (o + 0) (omega arith) (omega arith) (omega arith))
        (at-set_bytes p o 0 bs 1 (o + 1) (omega arith) (omega arith) (omega arith)) (omega arith)
        (omega arith)
      ∙ omega arith

  -- A number of four bytes that is written big endian inside an array is read back from there.
  read-write_u32_be : o + 4 ≤ length p → v < 2 ^ 32 → read_u32_be (write_u32_be p o v) o ≡ v
  unfolding write_u32_be
  read-write_u32_be fits small =
      let bs : List ℕ = byte_of v 24 ∷ byte_of v 16 ∷ byte_of v 8 ∷ byte_of v 0 ∷ [] in
      read_u32_be-eq (set_bytes p o 0 bs) o (byte_of v 24) (byte_of v 16) (byte_of v 8)
        (byte_of v 0) (at-set_bytes p o 0 bs 0 (o + 0) (omega arith) (omega arith) (omega arith))
        (at-set_bytes p o 0 bs 1 (o + 1) (omega arith) (omega arith) (omega arith))
        (at-set_bytes p o 0 bs 2 (o + 2) (omega arith) (omega arith) (omega arith))
        (at-set_bytes p o 0 bs 3 (o + 3) (omega arith) (omega arith) (omega arith)) (omega arith)
        (omega arith) (omega arith) (omega arith)
      ∙ omega arith

  -- A number of four bytes that is written little endian inside an array is read back from there.
  read-write_u32_le : o + 4 ≤ length p → v < 2 ^ 32 → read_u32_le (write_u32_le p o v) o ≡ v
  unfolding write_u32_le
  read-write_u32_le fits small =
      let bs : List ℕ = byte_of v 0 ∷ byte_of v 8 ∷ byte_of v 16 ∷ byte_of v 24 ∷ [] in
      read_u32_le-eq (set_bytes p o 0 bs) o (byte_of v 0) (byte_of v 8) (byte_of v 16)
        (byte_of v 24) (at-set_bytes p o 0 bs 0 (o + 0) (omega arith) (omega arith) (omega arith))
        (at-set_bytes p o 0 bs 1 (o + 1) (omega arith) (omega arith) (omega arith))
        (at-set_bytes p o 0 bs 2 (o + 2) (omega arith) (omega arith) (omega arith))
        (at-set_bytes p o 0 bs 3 (o + 3) (omega arith) (omega arith) (omega arith)) (omega arith)
        (omega arith) (omega arith) (omega arith)
      ∙ omega arith

  -- A number of eight bytes that is written big endian inside an array is read back from there.
  read-write_u64_be : o + 8 ≤ length p → v < 2 ^ 64 → read_u64_be (write_u64_be p o v) o ≡ v
  unfolding write_u64_be
  read-write_u64_be fits small =
      let bs : List ℕ =
        byte_of v 56
        ∷ byte_of v 48
        ∷ byte_of v 40
        ∷ byte_of v 32
        ∷ byte_of v 24
        ∷ byte_of v 16
        ∷ byte_of v 8
        ∷ byte_of v 0
        ∷ [] in
      read_u64_be-eq (set_bytes p o 0 bs) o (byte_of v 56) (byte_of v 48) (byte_of v 40)
        (byte_of v 32) (byte_of v 24) (byte_of v 16) (byte_of v 8) (byte_of v 0)
        (at-set_bytes p o 0 bs 0 (o + 0) (omega arith) (omega arith) (omega arith))
        (at-set_bytes p o 0 bs 1 (o + 1) (omega arith) (omega arith) (omega arith))
        (at-set_bytes p o 0 bs 2 (o + 2) (omega arith) (omega arith) (omega arith))
        (at-set_bytes p o 0 bs 3 (o + 3) (omega arith) (omega arith) (omega arith))
        (at-set_bytes p o 0 bs 4 (o + 4) (omega arith) (omega arith) (omega arith))
        (at-set_bytes p o 0 bs 5 (o + 5) (omega arith) (omega arith) (omega arith))
        (at-set_bytes p o 0 bs 6 (o + 6) (omega arith) (omega arith) (omega arith))
        (at-set_bytes p o 0 bs 7 (o + 7) (omega arith) (omega arith) (omega arith)) (omega arith)
        (omega arith) (omega arith) (omega arith) (omega arith) (omega arith) (omega arith)
        (omega arith)
      ∙ omega arith

  -- A number of eight bytes that is written little endian inside an array is read back from there.
  read-write_u64_le : o + 8 ≤ length p → v < 2 ^ 64 → read_u64_le (write_u64_le p o v) o ≡ v
  unfolding write_u64_le
  read-write_u64_le fits small =
      let bs : List ℕ =
        byte_of v 0
        ∷ byte_of v 8
        ∷ byte_of v 16
        ∷ byte_of v 24
        ∷ byte_of v 32
        ∷ byte_of v 40
        ∷ byte_of v 48
        ∷ byte_of v 56
        ∷ [] in
      read_u64_le-eq (set_bytes p o 0 bs) o (byte_of v 0) (byte_of v 8) (byte_of v 16)
        (byte_of v 24) (byte_of v 32) (byte_of v 40) (byte_of v 48) (byte_of v 56)
        (at-set_bytes p o 0 bs 0 (o + 0) (omega arith) (omega arith) (omega arith))
        (at-set_bytes p o 0 bs 1 (o + 1) (omega arith) (omega arith) (omega arith))
        (at-set_bytes p o 0 bs 2 (o + 2) (omega arith) (omega arith) (omega arith))
        (at-set_bytes p o 0 bs 3 (o + 3) (omega arith) (omega arith) (omega arith))
        (at-set_bytes p o 0 bs 4 (o + 4) (omega arith) (omega arith) (omega arith))
        (at-set_bytes p o 0 bs 5 (o + 5) (omega arith) (omega arith) (omega arith))
        (at-set_bytes p o 0 bs 6 (o + 6) (omega arith) (omega arith) (omega arith))
        (at-set_bytes p o 0 bs 7 (o + 7) (omega arith) (omega arith) (omega arith)) (omega arith)
        (omega arith) (omega arith) (omega arith) (omega arith) (omega arith) (omega arith)
        (omega arith)
      ∙ omega arith

-- A number of two, four or eight bytes that is written inside an array, big endian or little endian,
-- is read back from there.
pub read-write_uint :
    (p : List ℕ) (i j k u v w : ℕ)
    → i + 2 ≤ length p
    → j + 4 ≤ length p
    → k + 8 ≤ length p
    → u < 2 ^ 16
    → v < 2 ^ 32
    → w < 2 ^ 64
    → (read_u16_be (write_u16_be p i u) i ≡ u)
      × (read_u16_le (write_u16_le p i u) i ≡ u)
      × (read_u32_be (write_u32_be p j v) j ≡ v)
      × (read_u32_le (write_u32_le p j v) j ≡ v)
      × (read_u64_be (write_u64_be p k w) k ≡ w)
      × (read_u64_le (write_u64_le p k w) k ≡ w)
read-write_uint p i j k u v w fit2 fit4 fit8 small2 small4 small8 = (
  read-write_u16_be p i u fit2 small2,
  read-write_u16_le p i u fit2 small2,
  read-write_u32_be p j v fit4 small4,
  read-write_u32_le p j v fit4 small4,
  read-write_u64_be p k w fit8 small8,
  read-write_u64_le p k w fit8 small8,
)

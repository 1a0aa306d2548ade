-- ===== src/Buffer/View.antt =====
-- The unread bytes of a buffer, which are all that its readers depend on.
use hathor_ledger_app.Prelude.{
  ℕ, zero, suc, ◌+◌, ◌-◌, ◌^◌, ◌≤◌, ◌<◌, ◌≡◌, refl, ap, ap₂, sym, ◌∙◌, List, [], ◌∷◌, length, take,
  drop, length-take, length-drop, drop-drop, drop-take, All-take, All-drop, arith,
}
use hathor_ledger_app.Bytes.{IsByte, Bytes, at}
use hathor_ledger_app.Buffer.{Buffer, sub_size}

pub record IsValid (b : Buffer) : Type 0 where
  pub within : b.offset ≤ b.size
  pub backed : b.size ≤ length b.ptr
  pub small : b.size < 2 ^ 32
  pub bytes : Bytes b.ptr

abbrev pub remaining : Buffer → List ℕ
remaining b = take (b.size - b.offset) (drop b.offset b.ptr)

-- `size - offset` does not wrap.
pub sub_size-eq : {b : Buffer} → IsValid b → sub_size b.size b.offset ≡ b.size - b.offset
sub_size-eq v = omega arith

pub length-remaining : {b : Buffer} → IsValid b → length (remaining b) ≡ b.size - b.offset
length-remaining {b} v =
    omega (arith, length-take (b.size - b.offset) (drop b.offset b.ptr), length-drop b.offset b.ptr)

at-take : (n : ℕ) (xs : List ℕ) (i : ℕ) → i < n → at (take n xs) i ≡ at xs i
at-take zero xs i h = absurd (omega arith)
at-take (suc n) [] i h = refl
at-take (suc n) (x ∷ xs) zero h = refl
at-take (suc n) (x ∷ xs) (suc i) h = at-take n xs i (omega arith)

pub at-drop : (n : ℕ) (xs : List ℕ) (i : ℕ) → at (drop n xs) i ≡ at xs (n + i)
at-drop zero xs i = let e : i ≡ 0 + i = omega arith in ap (at xs) e
at-drop (suc n) [] i = refl
at-drop (suc n) (x ∷ xs) i =
    let e : suc (n + i) ≡ suc n + i = omega arith in at-drop n xs i ∙ ap (at (x ∷ xs)) e

-- A read inside the buffer is a read of the unread bytes.
pub at-remaining :
    (b : Buffer) (i : ℕ) → i < b.size - b.offset → at b.ptr (b.offset + i) ≡ at (remaining b) i
at-remaining b i h =
    sym (at-take (b.size - b.offset) (drop b.offset b.ptr) i h ∙ at-drop b.offset b.ptr i)

pub at-IsByte : (xs : List ℕ) (i : ℕ) → Bytes xs → IsByte (at xs i)
at-IsByte [] i h = omega arith
at-IsByte (x ∷ xs) zero h = h.0
at-IsByte (x ∷ xs) (suc i) h = at-IsByte xs i h.1

pub remaining-Bytes : {b : Buffer} → IsValid b → Bytes (remaining b)
remaining-Bytes {b} v = All-take IsByte _ _ (All-drop IsByte b.offset b.ptr v.bytes)

-- Skipping `k` unread bytes.
pub remaining-advance :
    (b : Buffer) (k : ℕ) → remaining (record b { offset = b.offset + k }) ≡ drop k (remaining b)
remaining-advance b k =
    let e : b.size - (b.offset + k) ≡ b.size - b.offset - k = omega arith in
    ap₂ take e (sym (drop-drop b.offset k b.ptr))
    ∙ sym (drop-take k (b.size - b.offset) (drop b.offset b.ptr))

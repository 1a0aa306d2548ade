-- ===== src/Buffer/Unread.antt =====
-- Reading what a list of bytes says, one field after the other.
use hathor_ledger_app.Prelude.{
  ℕ, ◌+◌, ◌-◌, ◌^◌, ◌||◌, ◌≤◌, ◌<◌, ◌≡◌, sym, ap, ap₂, ◌∙◌, true, false, List, [], ◌∷◌, ◌++◌, take,
  take-append, drop, drop-append, drop-drop, length, length-append, length-drop, ltb, arith,
}
use hathor_ledger_app.Bytes.{at}
use hathor_ledger_app.Buffer.{Buffer, buffer_read_u8, buffer_read_bytes, copy_to, sub_size}
use hathor_ledger_app.Buffer.View.{at-drop}
use hathor_ledger_app.Buffer.Steps.{read_u8_done, seek_cur_done}

-- The bytes from the offset on, up to the end of the array.
pub record Unread (b : Buffer) (bytes : List ℕ) : Type 0 where
  pub whole : b.size ≡ length b.ptr
  pub small : b.size < 2 ^ 32
  pub within : b.offset ≤ b.size
  pub rest : drop b.offset b.ptr ≡ bytes

length-Unread : (b : Buffer) (bytes : List ℕ) → Unread b bytes → b.size - b.offset ≡ length bytes
length-Unread b bytes u = omega (arith, u.whole, length-drop b.offset b.ptr, ap length u.rest)

advance : Buffer → ℕ → Buffer
advance b n = record b { offset = b.offset + n }

Unread-advance :
    (b : Buffer) (xs bytes : List ℕ) → Unread b (xs ++ bytes) → Unread (advance b (length xs)) bytes
unfolding advance
Unread-advance b xs bytes u = record {
  whole = u.whole;
  small = u.small;
  within = omega (arith, length-Unread b (xs ++ bytes) u, length-append xs bytes, u.within);
  rest =
      sym (drop-drop b.offset (length xs) b.ptr)
      ∙ ap (drop (length xs)) u.rest
      ∙ drop-append xs bytes;
}

pub read_u8_next :
    (b : Buffer) (x : ℕ) (bytes : List ℕ)
    → Unread b (x ∷ bytes)
    → (buffer_read_u8 b ≡ (true, x, record b { offset = b.offset + 1 }))
      × Unread (record b { offset = b.offset + 1 }) bytes
unfolding advance
read_u8_next b x bytes u =
    let n = length-Unread b (x ∷ bytes) u in
    let e : b.offset ≡ b.offset + 0 = omega arith in
    let value : at b.ptr b.offset ≡ x =
      ap (at b.ptr) e ∙ sym (at-drop b.offset b.ptr 0) ∙ ap (λ l. at l 0) u.rest in
    (
      read_u8_done b u.within u.small (omega arith)
          ∙ ap (λ v. (true, v, record b { offset = b.offset + 1 })) value,
      Unread-advance b (x ∷ []) bytes u,
    )

pub read_bytes_next :
    (b : Buffer) (xs bytes out : List ℕ) (out_len : ℕ)
    → Unread b (xs ++ bytes)
    → length xs ≤ out_len
    → (buffer_read_bytes b out out_len (length xs)
        ≡ (true, copy_to xs out, record b { offset = b.offset + length xs }))
      × Unread (record b { offset = b.offset + length xs }) bytes
unfolding buffer_read_bytes advance
read_bytes_next b xs bytes out out_len u fits =
    let n = length-Unread b (xs ++ bytes) u in
    let m = length-append xs bytes in
    let room : (ltb (sub_size b.size b.offset) (length xs) || ltb out_len (length xs)) ≡ false =
      ground (arith, u.within, u.small) in
    let moved = ap (λ r. r.1) (seek_cur_done b u.within u.small (length xs) (omega arith)) in
    (
      rw room (
          ap₂ (λ t b'. (true, copy_to t out, b'))
            (ap (take (length xs)) u.rest ∙ take-append xs bytes) moved),
      Unread-advance b xs bytes u,
    )

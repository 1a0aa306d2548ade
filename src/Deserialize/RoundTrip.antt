-- ===== src/Deserialize/RoundTrip.antt =====
-- The wire format of an output (doc/TRANSACTION.md), and `parse_output` on what it writes.
use hathor_ledger_app.Prelude.{
  ℕ, ◌+◌, ◌-◌, ◌%◌, ◌^◌, ◌≤◌, ◌<◌, ◌≡◌, refl, ap, sym, ◌∙◌, true, List, [], ◌∷◌, ◌++◌, take, drop,
  length, take-append, drop-append, drop-drop, ltb, if◌then◌else◌, arith,
}
use hathor_ledger_app.Bytes.{IsByte, at, byte_of, read_u16_be, read_u32_be, read_u64_be}
use hathor_ledger_app.Bytes.Value.{read_u16_be-eq, read_u32_be-eq, read_u64_be-eq}
use hathor_ledger_app.Buffer.View.{at-drop}
use hathor_ledger_app.Result.{ok, throw, tx_state_ready}
use hathor_ledger_app.Deserialize.{
  TxOutput, mem_eq, parse_output, op_dup, op_hash160, op_equalverify, op_checksig, pubkey_hash_len,
}
use hathor_ledger_app.Deserialize.Layout.{is_p2pkh, layout, long_layout, short_layout}

-- A value takes 4 bytes, or 8 bytes that hold its negation.
pub data Width : Type 0 where
  short long : Width

abbrev pub value_len : Width → ℕ
value_len short = 4
value_len long = 8

abbrev pub value_bytes : Width → ℕ → List ℕ
value_bytes short v = byte_of v 24 ∷ byte_of v 16 ∷ byte_of v 8 ∷ byte_of v 0 ∷ []
value_bytes long v =
    let m = 2 ^ 64 - v in
    byte_of m 56
    ∷ byte_of m 48
    ∷ byte_of m 40
    ∷ byte_of m 32
    ∷ byte_of m 24
    ∷ byte_of m 16
    ∷ byte_of m 8
    ∷ byte_of m 0
    ∷ []

-- What follows the value: token data, script length and the script.
abbrev pub tail_bytes : ℕ → List ℕ → List ℕ → List ℕ
tail_bytes token_data hash rest =
    token_data
    ∷ 0
    ∷ 25
    ∷ op_dup
    ∷ op_hash160
    ∷ pubkey_hash_len
    ∷ (hash ++ (op_equalverify ∷ op_checksig ∷ rest))

-- The bytes of an output, before `rest`.
abbrev pub encode : Width → TxOutput → List ℕ → List ℕ
encode w o rest = value_bytes w o.value ++ tail_bytes o.token_data o.pubkey_hash rest

abbrev pub Fits : Width → ℕ → Type 0
Fits short v = v < 2 ^ 31
Fits long v = (0 < v) × (v ≤ 2 ^ 63)

pub record Encodable (w : Width) (o : TxOutput) : Type 0 where
  pub value : Fits w o.value
  pub token_data : IsByte o.token_data
  pub hash : length o.pubkey_hash ≡ pubkey_hash_len

module _ (input : List ℕ) (w token_data : ℕ) (hash rest : List ℕ)
    (tail : drop w input ≡ tail_bytes token_data hash rest)
    (len : length hash ≡ pubkey_hash_len) where
  at_tail : (i : ℕ) → at input (w + i) ≡ at (tail_bytes token_data hash rest) i
  at_tail i = sym (at-drop w input i) ∙ ap (λ l. at l i) tail

  drop_tail : (i : ℕ) → drop (w + i) input ≡ drop i (tail_bytes token_data hash rest)
  drop_tail i = sym (drop-drop w i input) ∙ ap (drop i) tail

  take_hash : (ys : List ℕ) → take pubkey_hash_len (hash ++ ys) ≡ hash
  take_hash ys = ap (λ k. take k (hash ++ ys)) (sym len) ∙ take-append hash ys

  drop_hash : (ys : List ℕ) → drop pubkey_hash_len (hash ++ ys) ≡ ys
  drop_hash ys = ap (λ k. drop k (hash ++ ys)) (sym len) ∙ drop-append hash ys

  script_len : read_u16_be input (w + 1) ≡ 25
  script_len =
      read_u16_be-eq input (w + 1) 0 25 (ap (at input) (omega arith) ∙ at_tail 1)
        (ap (at input) (omega arith) ∙ at_tail 2) (omega arith) (omega arith)
      ∙ refl

  closing : drop (w + 3 + pubkey_hash_len + 3) input ≡ op_equalverify ∷ op_checksig ∷ rest
  closing =
      let e : w + 3 + pubkey_hash_len + 3 ≡ w + 26 = omega arith in
      ap (λ k. drop k input) e ∙ drop_tail 26 ∙ drop_hash (op_equalverify ∷ op_checksig ∷ rest)

  script : is_p2pkh input (w + 3) ≡ true
  unfolding mem_eq
  script = rw (drop_tail 3, closing)

  hash_field : take pubkey_hash_len (drop (w + 3 + 3) input) ≡ hash
  hash_field =
      let e : w + 3 + 3 ≡ w + 6 = omega arith in
      ap (λ k. take pubkey_hash_len (drop k input)) e
      ∙ ap (take pubkey_hash_len) (drop_tail 6)
      ∙ take_hash (op_equalverify ∷ op_checksig ∷ rest)

  token_field : at input w ≡ token_data
  token_field = let e : w ≡ w + 0 = omega arith in ap (at input) e ∙ at_tail 0

  layout-tail :
      (n value : ℕ)
      → layout input n w value ≡ (
          if ltb n (w + 28)
          then throw tx_state_ready
          else ok (
            record { index = 0; value = value; token_data = token_data; pubkey_hash = hash },
            w + 28,
          ))
  layout-tail n value = rw (script_len, script, hash_field, token_field) (ground arith)

module _ (o : TxOutput) (rest : List ℕ) (n : ℕ) (small : n < 2 ^ 32) where
  short_value : o.value < 2 ^ 31 → read_u32_be (encode short o rest) 0 ≡ o.value
  short_value h =
      read_u32_be-eq (encode short o rest) 0 _ _ _ _ refl refl refl refl (omega arith) (omega arith)
        (omega arith) (omega arith)
      ∙ omega arith

  long_value :
      (0 < o.value)
      → (o.value ≤ 2 ^ 63)
      → (2 ^ 64 - read_u64_be (encode long o rest) 0) % 2 ^ 64 ≡ o.value
  long_value p q =
      let read : read_u64_be (encode long o rest) 0 ≡ 2 ^ 64 - o.value =
        read_u64_be-eq (encode long o rest) 0 _ _ _ _ _ _ _ _ refl refl refl refl refl refl refl
          refl (omega arith) (omega arith) (omega arith) (omega arith) (omega arith) (omega arith)
          (omega arith) (omega arith)
        ∙ omega arith in
      rw read (omega arith)

-- An output that the format can hold, written out and followed by anything, is read back, with its
-- length, once all of its bytes are there; with fewer of them the parser asks for more.
pub parse_output-encode :
    (w : Width) (o : TxOutput) (rest : List ℕ) (n : ℕ)
    → Encodable w o
    → n < 2 ^ 32
    → parse_output (encode w o rest) n ≡ (
        if ltb n (value_len w + 28)
        then throw tx_state_ready
        else ok (record o { index = 0 }, value_len w + 28))
parse_output-encode short o rest n e small =
    short_layout (encode short o rest) n small (omega arith) (ground arith)
    ∙ rw
        (
          layout-tail (encode short o rest) 4 o.token_data o.pubkey_hash rest refl e.hash,
          short_value o rest n small e.value,
        )
        (ground arith)
parse_output-encode long o rest n e small =
    long_layout (encode long o rest) n small (omega arith) (ground arith)
    ∙ rw
        (
          layout-tail (encode long o rest) 8 o.token_data o.pubkey_hash rest refl e.hash,
          long_value o rest n small e.value.0 e.value.1,
        )
        (ground arith)

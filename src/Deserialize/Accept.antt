-- ===== src/Deserialize/Accept.antt =====
-- What `parse_output` accepts: nothing but an output that pays to the hash of a public key.
use hathor_ledger_app.Prelude.{
  ℕ, ◌+◌, ◌-◌, ◌%◌, ◌^◌, ◌≤◌, ◌<◌, ◌≡◌, ◌∙◌, sym, bit_and, Bool, true, false, not, List, take, drop,
  ltb, ◌==◌, if◌then◌else◌, arith, inl, inr, Bool-cases,
}
use hathor_ledger_app.Bytes.{at, read_u16_be, read_u32_be, read_u64_be}
use hathor_ledger_app.Result.{Result, ok, throw, tx_state_ready}
use hathor_ledger_app.Deserialize.{TxOutput, parse_output, pubkey_hash_len}
use hathor_ledger_app.Deserialize.Layout.{is_p2pkh, layout, marked_layout, plain_layout}

-- An output of `len` bytes at the start of the input, whose value takes `w` bytes.
pub record Accepted (input : List ℕ) (n w value : ℕ) (o : TxOutput) (len : ℕ) : Type 0 where
  pub end : len ≡ w + 28
  pub inside : len ≤ n
  pub value_field : o.value ≡ value
  pub token_field : o.token_data ≡ at input w
  pub script_len : read_u16_be input (w + 1) ≡ 25
  pub script : is_p2pkh input (w + 3) ≡ true
  pub hash_field : o.pubkey_hash ≡ take pubkey_hash_len (drop (w + 6) input)

behind :
    (short : Bool) (r : Result (TxOutput × ℕ)) (a : TxOutput × ℕ)
    → (if short then throw tx_state_ready else r) ≡ ok a
    → r ≡ ok a
behind true r a e = ground arith
behind false r a e = e

layout-Accepted :
    (input : List ℕ) (n w value : ℕ) (o : TxOutput) (len : ℕ)
    → layout input n w value ≡ ok (o, len)
    → Accepted input n w value o len
layout-Accepted input n w value o len e =
    let six : w + 3 + 3 ≡ w + 6 = omega arith in
    record {
      end = ground arith;
      inside = ground arith;
      value_field = ground arith;
      token_field = ground arith;
      script_len = ground arith;
      script = ground arith;
      hash_field = ground arith;
    }

-- The width of the value that starts with this byte.
abbrev pub width_of : ℕ → ℕ
width_of first = if not (bit_and first 0x80 == 0) then 8 else 4

-- The value that is encoded at the start of the input.
abbrev pub value_at : List ℕ → ℕ
value_at input =
    if not (bit_and (at input 0) 0x80 == 0)
    then (2 ^ 64 - read_u64_be input 0) % 2 ^ 64
    else read_u32_be input 0

-- An output that `parse_output` accepts, in an input of fewer than 2 ^ 32 bytes, lies within the
-- input, its value is the one encoded there, and its script is the script that pays to the hash it
-- reports: 25 bytes, with the five opcodes at their places and the hash between them.
pub parse_output-Accepted :
    (input : List ℕ) (n : ℕ) (o : TxOutput) (len : ℕ)
    → n < 2 ^ 32
    → parse_output input n ≡ ok (o, len)
    → Accepted input n (width_of (at input 0)) (value_at input) o len
parse_output-Accepted input n o len small e =
    elim (Bool-cases (not (bit_and (at input 0) 0x80 == 0))) [
      | inl marked ↦ rw marked (
          layout-Accepted input n 8 _ o len (
            behind (ltb n 8) (layout input n 8 _) (o, len)
              (sym (marked_layout input n small marked) ∙ e)))
      | inr plain ↦ rw plain (
          layout-Accepted input n 4 _ o len (
            behind (ltb n 4) (layout input n 4 _) (o, len)
              (sym (plain_layout input n small plain) ∙ e)))
    ]

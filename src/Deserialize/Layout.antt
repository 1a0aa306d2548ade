-- ===== src/Deserialize/Layout.antt =====
-- `parse_output` as one decision on fixed positions of its input.
use hathor_ledger_app.Prelude.{
  ℕ, ◌+◌, ◌-◌, ◌%◌, ◌^◌, ◌≤◌, ◌<◌, ◌≡◌, ◌∙◌, bit_and, Bool, true, false, not, ◌&&◌, List, [], ◌∷◌,
  take, drop, ltb, leb, ◌==◌, if◌then◌else◌, arith,
}
use native.Mathlib.Decide.{dec_lt}
use hathor_ledger_app.Prelude.Bits.{bit_and-power}
use hathor_ledger_app.Bytes.{IsByte, at, read_u16_be, read_u32_be, read_u64_be}
use hathor_ledger_app.Buffer.{Buffer}
use hathor_ledger_app.Buffer.Steps.{
  read_u8_done, read_u8_short, read_u64_done, read_u64_short, read_u32_done, read_u32_short,
  read_u16_done, read_u16_short,
}
use hathor_ledger_app.Result.{Result, ok, throw, require, sw_tx_parsing_fail, tx_state_ready}
use hathor_ledger_app.Deserialize.{
  TxOutput, mem_eq, parse_output_rest, parse_output, parse_output_value, validate_p2pkh_script,
  op_dup, op_hash160, op_equalverify, op_checksig, pubkey_hash_len,
}

-- The opcodes round the hash of a script that starts at `o`.
abbrev pub is_p2pkh : List ℕ → ℕ → Bool
is_p2pkh input o =
    mem_eq (op_dup ∷ op_hash160 ∷ pubkey_hash_len ∷ []) (take 3 (drop o input))
    && mem_eq (op_equalverify ∷ op_checksig ∷ []) (take 2 (drop (o + pubkey_hash_len + 3) input))

abbrev pub layout : List ℕ → ℕ → ℕ → ℕ → Result (TxOutput × ℕ)
layout input n w value =
    if ltb n (w + 3)
    then throw tx_state_ready
    else if not (read_u16_be input (w + 1) == 25)
    then throw sw_tx_parsing_fail
    else if ltb n (w + 28)
    then throw tx_state_ready
    else if not (is_p2pkh input (w + 3))
    then throw sw_tx_parsing_fail
    else ok (
      record {
        index = 0;
        value = value;
        token_data = at input w;
        pubkey_hash = take pubkey_hash_len (drop (w + 3 + 3) input);
      },
      w + 28,
    )

is_long : (x : ℕ) → IsByte x → not (bit_and x 0x80 == 0) ≡ leb 0x80 x
is_long x h = ground (arith, bit_and-power 7 x)

module _ (input : List ℕ) (n : ℕ) (small : n < 2 ^ 32) where
  at_offset : ℕ → Buffer
  at_offset o = record { ptr = input; size = n; offset = o }

  validate_layout :
      (o script_len : ℕ)
      → o ≤ n
      → validate_p2pkh_script (at_offset o) script_len ≡ (
          if not (script_len == 25)
          then throw sw_tx_parsing_fail
          else if ltb n (o + 25)
          then throw tx_state_ready
          else require (is_p2pkh input o) sw_tx_parsing_fail)
  unfolding at_offset validate_p2pkh_script
  validate_layout o script_len h = ground arith

  rest_layout :
      (w value : ℕ) → w ≤ n → parse_output_rest value (at_offset w) ≡ layout input n w value
  unfolding parse_output_rest at_offset
  rest_layout w value h = elim (dec_lt n (w + 1)) [
    | yes short ↦ rw (read_u8_short (at_offset w) h small (omega arith)) (ground arith)
    | no some ↦ rw (read_u8_done (at_offset w) h small (omega arith)) (elim (dec_lt n (w + 3)) [
      | yes short ↦
          rw (read_u16_short (at_offset (w + 1)) (omega arith) small (omega arith)) (ground arith)
      | no long ↦
          let e : w + 1 + 2 ≡ w + 3 = omega arith in
          rw
            (
              read_u16_done (at_offset (w + 1)) (omega arith) small (omega arith),
              e,
              validate_layout (w + 3) _ (omega arith),
            )
            (ground arith)
    ])
  ]

  pub marked_layout :
      not (bit_and (at input 0) 0x80 == 0) ≡ true
      → parse_output input n ≡ (
          if ltb n 8
          then throw tx_state_ready
          else layout input n 8 ((2 ^ 64 - read_u64_be input 0) % 2 ^ 64))
  unfolding parse_output parse_output_value at_offset
  marked_layout h = elim (dec_lt n 8) [
    | yes short ↦
        rw (h, read_u64_short (at_offset 0) (omega arith) small (omega arith)) (ground arith)
    | no long ↦
        rw (h, read_u64_done (at_offset 0) (omega arith) small (omega arith))
          (rw (← rest_layout 8 ((2 ^ 64 - read_u64_be input 0) % 2 ^ 64) (omega arith))
            (ground arith))
  ]

  pub plain_layout :
      not (bit_and (at input 0) 0x80 == 0) ≡ false
      → parse_output input n
        ≡ (if ltb n 4 then throw tx_state_ready else layout input n 4 (read_u32_be input 0))
  unfolding parse_output parse_output_value at_offset
  plain_layout h = elim (dec_lt n 4) [
    | yes short ↦
        rw (h, read_u32_short (at_offset 0) (omega arith) small (omega arith)) (ground arith)
    | no long ↦
        rw (h, read_u32_done (at_offset 0) (omega arith) small (omega arith))
          (rw (← rest_layout 4 (read_u32_be input 0) (omega arith)) (ground arith))
  ]

  pub long_layout :
      IsByte (at input 0)
      → leb 0x80 (at input 0) ≡ true
      → parse_output input n ≡ (
          if ltb n 8
          then throw tx_state_ready
          else layout input n 8 ((2 ^ 64 - read_u64_be input 0) % 2 ^ 64))
  long_layout byte h = marked_layout (is_long (at input 0) byte ∙ h)

  pub short_layout :
      IsByte (at input 0)
      → leb 0x80 (at input 0) ≡ false
      → parse_output input n
        ≡ (if ltb n 4 then throw tx_state_ready else layout input n 4 (read_u32_be input 0))
  short_layout byte h = plain_layout (is_long (at input 0) byte ∙ h)

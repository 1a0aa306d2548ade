-- ===== src/SignTx/Accept.antt =====
-- What the decoder lets through.
use Prim.{absurd}
use hathor_ledger_app.Prelude.{
  set, ℕ, ◌+◌, ◌-◌, ◌^◌, ◌≤◌, ◌<◌, ◌≡◌, refl, bit_and, Bool, true, some, List, [], ◌∷◌, take, All,
  arith, inl, inr, Option-cases,
}
use hathor_ledger_app.Bytes.{at}
use hathor_ledger_app.Result.{Result, ok, throw, fault}
use hathor_ledger_app.Deserialize.{TxOutput, parse_output, pubkey_hash_len}
use hathor_ledger_app.Deserialize.Accept.{Accepted, parse_output-Accepted, width_of, value_at}
use hathor_ledger_app.Sdk.{Sdk}
use hathor_ledger_app.Token.Registry.{mem_eq-true}
use hathor_ledger_app.App.{TxInfo, ChangeOutputInfo, outputs_cap}
use hathor_ledger_app.SignTx.{
  store_output, check_output, decode_parsed, decode_output, token_data_authority_mask,
  token_data_index_mask,
}
use hathor_ledger_app.SignTx.Change.{path_hash, verify_change, check_change}

module _ {H : Type 0} (sdk : Sdk H) where
  -- The output pays to the key that the change information names.
  abbrev pub PaysTo : TxOutput → ChangeOutputInfo → Type 0
  PaysTo output info =
      (hash : List ℕ) × (path_hash sdk info.path ≡ some hash)
      × (take pubkey_hash_len hash ≡ take pubkey_hash_len output.pubkey_hash)

  abbrev pub ChangeVerified : TxOutput → List ChangeOutputInfo → Type 0
  ChangeVerified output =
      All (λ (info : ChangeOutputInfo). output.index ≡ info.index → PaysTo output info)

  verify_change-true :
      (info : ChangeOutputInfo) (output : TxOutput)
      → verify_change sdk info output ≡ ok true
      → PaysTo output info
  unfolding verify_change
  verify_change-true info output e = elim (Option-cases (path_hash sdk info.path)) [
    | inl failed ↦ absurd (ground arith)
    | inr (hash, computed) ↦ (hash, computed, mem_eq-true _ _ (ground arith))
  ]

  check_change-ok :
      (infos : List ChangeOutputInfo) (output : TxOutput)
      → check_change sdk infos output ≡ ok tt
      → ChangeVerified output infos
  unfolding check_change
  check_change-ok [] output e = tt
  check_change-ok (info ∷ infos) output e = (
    (λ same. verify_change-true info output (ground arith)),
    check_change-ok infos output (ground arith),
  )

  -- An output that the decoder keeps.
  pub record Kept (tx : TxInfo H) (o : TxOutput) : Type 0 where
    pub no_authority : bit_and o.token_data token_data_authority_mask ≡ 0
    pub known_token : bit_and o.token_data token_data_index_mask ≤ tx.tokens_len
    pub room : tx.buffer_output_len < outputs_cap
    pub change :
        ChangeVerified (record o { index = tx.current_output }) (take tx.change_len tx.change_info)

  check_output-Kept :
      (tx : TxInfo H) (o : TxOutput) (len : ℕ) (more : Bool)
      → (check_output sdk tx o len).0 ≡ ok more
      → Kept tx o
  unfolding check_output store_output
  check_output-Kept tx o len more e = record {
    no_authority = ground arith;
    known_token = ground arith;
    room = ground arith;
    change = check_change-ok _ (record o { index = tx.current_output }) (ground arith);
  }

  -- What the decoder took for an output: the bytes that it read it from, and the checks it passed.
  pub record Decoded (tx tx' : TxInfo H) (o : TxOutput) (len : ℕ) : Type 0 where
    pub parsed :
        Accepted tx.buffer tx.buffer_len (width_of (at tx.buffer 0)) (value_at tx.buffer) o len
    pub kept : Kept tx o
    pub saved :
        tx'.outputs ≡ set tx.outputs tx.buffer_output_len (record o { index = tx.current_output })
    pub counted : tx'.buffer_output_len ≡ tx.buffer_output_len + 1
    pub consumed : tx'.buffer_len ≡ tx.buffer_len - len

  decode_parsed-Decoded :
      (p : Result (TxOutput × ℕ)) (tx : TxInfo H) (more : Bool)
      → tx.buffer_len < 2 ^ 32
      → parse_output tx.buffer tx.buffer_len ≡ p
      → (decode_parsed sdk p tx).0 ≡ ok more
      → (o : TxOutput) × (len : ℕ) × Decoded tx (decode_parsed sdk p tx).1 o len
  unfolding decode_parsed check_output store_output
  decode_parsed-Decoded (ok (o, len)) tx more small e h =
      let k = check_output-Kept tx o len more h in
      (
        o,
        len,
        record {
          parsed = parse_output-Accepted tx.buffer tx.buffer_len o len small e;
          kept = k;
          saved = ground arith;
          counted = ground arith;
          consumed = ground arith;
        },
      )
  decode_parsed-Decoded (throw x) tx more small e h = absurd (ground arith)
  decode_parsed-Decoded fault tx more small e h = absurd (ground arith)

  -- With fewer than 2 ^ 32 bytes in the buffer, an output that the decoder keeps is one that the
  -- buffer starts with, as `parse_output` reads it. It is not an authority output, its token is HTR
  -- or one of the tokens announced before, it is saved under its number in the transaction, and
  -- where the change information names that number, it pays to the key that the device derives for
  -- the path given there.
  pub decode_output-Decoded :
      (tx : TxInfo H) (more : Bool)
      → tx.buffer_len < 2 ^ 32
      → (decode_output sdk tx).0 ≡ ok more
      → (o : TxOutput) × (len : ℕ) × Decoded tx (decode_output sdk tx).1 o len
  unfolding decode_output
  decode_output-Decoded tx more small h = decode_parsed-Decoded _ tx more small refl h

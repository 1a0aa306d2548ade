-- ===== src/SignTx/Change.antt =====
-- src/handler/sign_tx.c: change outputs. `verify_change`, the loop over `change_info` in
-- `_decode_elements`, and the readers of the change information.
use hathor_ledger_app.Prelude.{
  ℕ, zero, suc, ◌+◌, ◌*◌, bit_and, Bool, not, ◌||◌, Option, none, some, List, [], ◌∷◌, get_or, set,
  take, drop, replicate, ltb, ◌==◌, if◌then◌else◌,
}
use hathor_ledger_app.Bip32.{Bip32Path, max_bip32_path}
use hathor_ledger_app.Buffer.{
  be, buffer_read_u16, Buffer, sub_size, copy_to, buffer_read_u8, buffer_read_bip32_path,
  buffer_seek_cur,
}
use hathor_ledger_app.Result.{
  Result, ok, throw, fault, sw_wrong_data_length, sw_invalid_tx, sw_internal_error, tx_state_err,
}
use hathor_ledger_app.Deserialize.{TxOutput, mem_eq, pubkey_hash_len}
use hathor_ledger_app.Sdk.{Sdk}
use hathor_ledger_app.Hathor.{
  ◌>>=◌, derive_private_key, init_public_key, compress_public_key, hash160,
}
use hathor_ledger_app.Token.{tx_max_tokens}
use hathor_ledger_app.App.{ChangeOutputInfo, zero_change, TxInfo}

module _ {H : Type 0} (sdk : Sdk H) where
  -- The hash of the public key at a path.
  unfoldable pub path_hash : Bip32Path → Option (List ℕ)
  path_hash path = do
    (private_key, _) ← derive_private_key sdk path.path path.length
    public_key ← init_public_key sdk private_key
    hash160 sdk (take 33 (compress_public_key public_key))

  unfoldable pub verify_change : ChangeOutputInfo → TxOutput → Result Bool
  verify_change info output = elim (path_hash info.path) [
    | none ↦ throw sw_internal_error
    | some hash ↦ ok (mem_eq (take pubkey_hash_len hash) (take pubkey_hash_len output.pubkey_hash))
  ]

  -- Every entry for this output has to be verified.
  unfoldable pub check_change : List ChangeOutputInfo → TxOutput → Result (Unit {0})
  check_change [] output = ok tt
  check_change (info ∷ infos) output =
      let rest = check_change infos output in
      if output.index == info.index
      then elim (verify_change info output) [
        | ok verified ↦ if verified then rest else throw tx_state_err
        | throw e ↦ throw e
        | fault ↦ fault
      ]
      else rest

-- The readers below return the buffer, and the state as it is when they return or throw.
module _ {H : Type 0} where
  -- The loop of `read_change_info_v1` at entry `i`, with `rounds` left.
  unfoldable pub read_change_entries :
      ℕ → ℕ → Buffer → TxInfo H → Result (Unit {0}) × Buffer × TxInfo H
  read_change_entries zero i b tx = (ok tt, b, tx)
  read_change_entries (suc rounds) i b tx =
      let info = get_or tx.change_info i zero_change in
      let (done, index, b1) = buffer_read_u8 b in
      let info1 = record info { index = index } in
      let (read, path, b2) = buffer_read_bip32_path b1 info1.path in
      let info2 = record info1 { path = path } in
      let tx1 = record tx { change_info = set tx.change_info i info1 } in
      let tx2 = record tx { change_info = set tx.change_info i info2 } in
      let rest = read_change_entries rounds (i + 1) b2 tx2 in
      if not done
      then (throw sw_wrong_data_length, b1, tx1)
      else if not read
      then (throw sw_wrong_data_length, b2, tx2)
      else rest

  unfoldable pub read_change_info_v1 : Buffer → TxInfo H → Result (Unit {0}) × Buffer × TxInfo H
  read_change_info_v1 b tx =
      let (done, change_len, b1) = buffer_read_u8 b in
      let tx1 = record tx { change_len = change_len } in
      if not done || ltb (tx_max_tokens + 1) change_len
      then (throw sw_wrong_data_length, b1, tx1)
      else read_change_entries change_len 0 b1 tx1

  -- The local array `buffer` gets the path in the form that `buffer_read_bip32_path` reads.
  unfoldable pub read_change_info_old_protocol :
      ℕ → Buffer → TxInfo H → Result (Unit {0}) × Buffer × TxInfo H
  read_change_info_old_protocol change_byte b tx =
      let info = get_or tx.change_info 0 zero_change in
      let (done, index, b1) = buffer_read_u8 b in
      let info1 = record info { index = index } in
      let tx1 = record tx { change_len = 1; change_info = set tx.change_info 0 info1 } in
      let path_len = bit_and change_byte 0x0F in
      let local =
        path_len ∷ copy_to (take (4 * path_len) (drop b1.offset b1.ptr)) (replicate 20 0) in
      let b2 = (buffer_seek_cur b1 (4 * path_len)).1 in
      let (read, path, _) =
        buffer_read_bip32_path (record { ptr = local; size = 1 + 4 * max_bip32_path; offset = 0 })
          info1.path in
      let tx2 = record tx1 { change_info = set tx.change_info 0 (record info1 { path = path }) } in
      if not done
      then (throw sw_wrong_data_length, b1, tx1)
      else if ltb max_bip32_path path_len || ltb (sub_size b1.size b1.offset) (4 * path_len)
      then (throw sw_wrong_data_length, b1, tx1)
      else if not read
      then (throw sw_wrong_data_length, b2, tx2)
      else (ok tt, b2, tx2)

  unfoldable pub read_change_info : Buffer → TxInfo H → Result (Unit {0}) × Buffer × TxInfo H
  read_change_info b tx =
      let (done, proto_version, b1) = buffer_read_u8 b in
      if not done
      then (throw sw_wrong_data_length, b1, tx)
      else if proto_version == 0
      then (ok tt, b1, record tx { change_len = 0 })
      else if not (bit_and proto_version 0x80 == 0)
      then read_change_info_old_protocol proto_version b1 tx
      else if proto_version == 1
      then read_change_info_v1 b1 tx
      else (throw sw_invalid_tx, b1, tx)

  -- Each field is written also where its read fails (with 0), and the later ones are not read then.
  unfoldable pub read_tx_data : Buffer → TxInfo H → Result (Unit {0}) × Buffer × TxInfo H
  read_tx_data b tx =
      let (ok1, tx_version, b1) = buffer_read_u16 b be in
      let tx1 = record tx { tx_version = tx_version } in
      let (ok2, remaining_tokens, b2) = buffer_read_u8 b1 in
      let tx2 = record tx1 { remaining_tokens = remaining_tokens } in
      let (ok3, remaining_inputs, b3) = buffer_read_u8 b2 in
      let tx3 = record tx2 { remaining_inputs = remaining_inputs } in
      let (ok4, outputs_len, b4) = buffer_read_u8 b3 in
      let tx4 = record tx3 { outputs_len = outputs_len } in
      if not ok1
      then (throw sw_wrong_data_length, b1, tx1)
      else if not ok2
      then (throw sw_wrong_data_length, b2, tx2)
      else if not ok3
      then (throw sw_wrong_data_length, b3, tx3)
      else if not ok4
      then (throw sw_wrong_data_length, b4, tx4)
      else (ok tt, b4, tx4)

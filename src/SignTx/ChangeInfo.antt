-- ===== src/SignTx/ChangeInfo.antt =====
-- src/handler/sign_tx.c: the change information that `read_change_info` accepts.
use Prim.{absurd}
use hathor_ledger_app.Prelude.{
  ℕ, ◌+◌, ◌*◌, ◌≤◌, ◌<◌, ◌≡◌, refl, sym, subst, ap, ◌∙◌, bit_and, false, not, ◌||◌, List, ◌∷◌,
  get_or, set, take, drop, replicate, length, ltb, ◌==◌, arith, inl, inr, Bool-cases,
}
use hathor_ledger_app.Bip32.Accept.{Allowed}
use hathor_ledger_app.Buffer.{Buffer, sub_size, copy_to, buffer_read_u8, buffer_read_bip32_path}
use hathor_ledger_app.Result.{Result, ok}
use hathor_ledger_app.App.{TxInfo, zero_change}
use hathor_ledger_app.SignTx.Change.{
  read_change_entries, read_change_info_v1, read_change_info_old_protocol, read_change_info,
}
use hathor_ledger_app.SignTx.ChangeEntries.{
  is_ok, not_ok, read_path-Allowed, AllowedUpTo, next-AllowedUpTo, entries-AllowedUpTo,
}

module _ {H : Type 0} where
  -- There are at most as many entries as the array has, and each has a path that is allowed.
  pub record ChangeAccepted (tx : TxInfo H) : Type 0 where
    pub most : tx.change_len ≤ 11
    pub size : length tx.change_info ≡ 11
    pub paths : (k : ℕ) → k < tx.change_len → Allowed (get_or tx.change_info k zero_change).path

  none-AllowedUpTo : (tx : TxInfo H) → length tx.change_info ≡ 11 → AllowedUpTo 0 tx
  unfolding AllowedUpTo
  none-AllowedUpTo tx size = (size, λ k l. absurd (omega arith))

  all-ChangeAccepted :
      (n : ℕ) (tx : TxInfo H) → tx.change_len ≡ n → n ≤ 11 → AllowedUpTo n tx → ChangeAccepted tx
  unfolding AllowedUpTo
  all-ChangeAccepted n tx e h (size, paths) = record {
    most = omega arith;
    size = size;
    paths = λ k l. paths k (omega arith);
  }

  v1-ChangeAccepted :
      (b : Buffer) (tx : TxInfo H)
      → length tx.change_info ≡ 11
      → (read_change_info_v1 b tx).0 ≡ ok tt
      → ChangeAccepted (read_change_info_v1 b tx).2
  unfolding read_change_info_v1 is_ok
  v1-ChangeAccepted b tx size e =
      let n = (buffer_read_u8 b).1 in
      let b1 = (buffer_read_u8 b).2 in
      let tx1 = record tx { change_len = n } in
      elim (Bool-cases (not (buffer_read_u8 b).0 || ltb 11 n)) [
        | inl refused ↦
            let stop : is_ok (read_change_info_v1 b tx).0 ≡ false = rw refused refl in
            not_ok _ e stop
        | inr accepted ↦
            let step : read_change_info_v1 b tx ≡ read_change_entries n 0 b1 tx1 =
              rw accepted refl in
            let most : n ≤ 11 = ground arith in
            let read =
              entries-AllowedUpTo n 0 b1 tx1 (omega arith) (none-AllowedUpTo tx1 size)
                (ap (λ r. r.0) (sym step) ∙ e) in
            subst (λ (r : Result (Unit {0}) × Buffer × TxInfo H). ChangeAccepted r.2) (sym step)
              (all-ChangeAccepted (0 + n) _ (read.1 ∙ omega arith) (omega arith) read.0)
      ]

  old-ChangeAccepted :
      (byte : ℕ) (b : Buffer) (tx : TxInfo H)
      → length tx.change_info ≡ 11
      → (read_change_info_old_protocol byte b tx).0 ≡ ok tt
      → ChangeAccepted (read_change_info_old_protocol byte b tx).2
  unfolding read_change_info_old_protocol is_ok
  old-ChangeAccepted byte b tx size e =
      let b1 = (buffer_read_u8 b).2 in
      let info = get_or tx.change_info 0 zero_change in
      let path_len = bit_and byte 0x0F in
      let local : List ℕ =
        path_len ∷ copy_to (take (4 * path_len) (drop b1.offset b1.ptr)) (replicate 20 0) in
      let copied : Buffer = record { ptr = local; size = 21; offset = 0 } in
      let read = buffer_read_bip32_path copied info.path in
      let info2 = record info { index = (buffer_read_u8 b).1; path = read.1 } in
      let tx1 = record tx { change_len = 1 } in
      let none_yet = none-AllowedUpTo tx1 size in
      elim (Bool-cases (not (buffer_read_u8 b).0)) [
        | inl short ↦
            let stop : is_ok (read_change_info_old_protocol byte b tx).0 ≡ false = rw short refl in
            not_ok _ e stop
        | inr done ↦
            elim (Bool-cases (ltb 5 path_len || ltb (sub_size b1.size b1.offset) (4 * path_len))) [
              | inl long ↦
                  let stop : is_ok (read_change_info_old_protocol byte b tx).0 ≡ false =
                    rw (done, long) refl in
                  not_ok _ e stop
              | inr fits ↦ elim (Bool-cases read.0) [
                | inr wrong ↦
                    let stop : is_ok (read_change_info_old_protocol byte b tx).0 ≡ false =
                      rw (done, fits, wrong) refl in
                    not_ok _ e stop
                | inl right ↦
                    rw (done, fits, right)
                      (all-ChangeAccepted 1
                        (record tx1 { change_info = set tx.change_info 0 info2 }) refl (omega arith)
                        (next-AllowedUpTo 0 tx1 info2 (omega arith) none_yet
                          (read_path-Allowed copied info.path right)))
              ]
            ]
      ]

  -- Where the array has its 11 entries: the change information that is accepted, whatever the bytes
  -- of the command, has no more entries than the array, and each of them has a path of at most five
  -- levels, with 0 or 1 at the change level and a bounded address level.
  pub read_change_info-ChangeAccepted :
      (b : Buffer) (tx : TxInfo H)
      → length tx.change_info ≡ 11
      → (read_change_info b tx).0 ≡ ok tt
      → ChangeAccepted (read_change_info b tx).2
  unfolding read_change_info is_ok
  read_change_info-ChangeAccepted b tx size e =
      let version = (buffer_read_u8 b).1 in
      let b1 = (buffer_read_u8 b).2 in
      elim (Bool-cases (buffer_read_u8 b).0) [
        | inr short ↦
            let stop : is_ok (read_change_info b tx).0 ≡ false = rw short refl in not_ok _ e stop
        | inl done ↦ elim (Bool-cases (version == 0)) [
          | inl none_named ↦
              rw (done, none_named)
                (all-ChangeAccepted 0 (record tx { change_len = 0 }) refl (omega arith)
                  (none-AllowedUpTo (record tx { change_len = 0 }) size))
          | inr some_named ↦ elim (Bool-cases (not (bit_and version 0x80 == 0))) [
            | inl old ↦
                let step : read_change_info b tx ≡ read_change_info_old_protocol version b1 tx =
                  rw (done, some_named, old) refl in
                subst (λ (r : Result (Unit {0}) × Buffer × TxInfo H). ChangeAccepted r.2) (sym step)
                  (old-ChangeAccepted version b1 tx size (ap (λ r. r.0) (sym step) ∙ e))
            | inr new ↦ elim (Bool-cases (version == 1)) [
              | inl one ↦
                  let step : read_change_info b tx ≡ read_change_info_v1 b1 tx =
                    rw (done, some_named, new, one) refl in
                  subst (λ (r : Result (Unit {0}) × Buffer × TxInfo H). ChangeAccepted r.2)
                    (sym step) (v1-ChangeAccepted b1 tx size (ap (λ r. r.0) (sym step) ∙ e))
              | inr unknown ↦
                  let stop : is_ok (read_change_info b tx).0 ≡ false =
                    rw (done, some_named, new, unknown) refl in
                  not_ok _ e stop
            ]
          ]
        ]
      ]

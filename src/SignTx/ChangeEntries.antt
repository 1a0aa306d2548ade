-- ===== src/SignTx/ChangeEntries.antt =====
-- src/handler/sign_tx.c: the entries of the change information that `read_change_entries` accepts.
use Prim.{absurd}
use mathlib.Core.Bool.{true≢false}
use hathor_ledger_app.Prelude.{
  ℕ, zero, suc, ◌+◌, ◌≤◌, ◌<◌, ◌≡◌, ◌≢◌, refl, sym, subst, ap, ◌∙◌, Bool, true, false, List, [],
  ◌∷◌, get_or, set, drop, length, length-set, arith, inl, inr, Bool-cases, same_or_not,
}
use hathor_ledger_app.Bip32.{Bip32Path, bip32_path_read}
use hathor_ledger_app.Bip32.Accept.{Allowed, bip32_path_read-Allowed}
use hathor_ledger_app.Buffer.{Buffer, sub_size, buffer_read_u8, buffer_read_bip32_path}
use hathor_ledger_app.Result.{Result, ok, throw, fault}
use hathor_ledger_app.App.{TxInfo, ChangeOutputInfo, zero_change}
use hathor_ledger_app.SignTx.Change.{read_change_entries}

get_or-set :
    (xs : List ChangeOutputInfo) (i : ℕ) (v d : ChangeOutputInfo)
    → i < length xs
    → get_or (set xs i v) i d ≡ v
get_or-set [] i v d h = absurd (omega arith)
get_or-set (x ∷ xs) zero v d h = refl
get_or-set (x ∷ xs) (suc i) v d h = get_or-set xs i v d (omega arith)

get_or-set_other :
    (xs : List ChangeOutputInfo) (i k : ℕ) (v d : ChangeOutputInfo)
    → k ≢ i
    → get_or (set xs i v) k d ≡ get_or xs k d
get_or-set_other [] i k v d h = refl
get_or-set_other (x ∷ xs) zero zero v d h = absurd (h refl)
get_or-set_other (x ∷ xs) zero (suc k) v d h = refl
get_or-set_other (x ∷ xs) (suc i) zero v d h = refl
get_or-set_other (x ∷ xs) (suc i) (suc k) v d h = get_or-set_other xs i k v d (λ e. h (ap suc e))

read_path :
    (b : Buffer) (out : Bip32Path)
    → ((buffer_read_bip32_path b out).0
        ≡ (bip32_path_read (drop b.offset b.ptr) (sub_size b.size b.offset) out).0)
      × ((buffer_read_bip32_path b out).1
          ≡ (bip32_path_read (drop b.offset b.ptr) (sub_size b.size b.offset) out).1)
unfolding buffer_read_bip32_path
read_path b out =
    elim (Bool-cases (bip32_path_read (drop b.offset b.ptr) (sub_size b.size b.offset) out).0) [
      | inl done ↦ rw (buffer_read_bip32_path, done) (refl, refl)
      | inr failed ↦ rw (buffer_read_bip32_path, failed) (refl, refl)
    ]

pub read_path-Allowed :
    (b : Buffer) (out : Bip32Path)
    → (buffer_read_bip32_path b out).0 ≡ true
    → Allowed (buffer_read_bip32_path b out).1
read_path-Allowed b out e =
    let (done, path) = read_path b out in
    subst Allowed (sym path) (bip32_path_read-Allowed _ _ out (sym done ∙ e)).0

unfoldable pub is_ok : Result (Unit {0}) → Bool
is_ok (ok _) = true
is_ok (throw e) = false
is_ok fault = false

pub not_ok : {P : Type 0} (r : Result (Unit {0})) → r ≡ ok tt → is_ok r ≡ false → P
unfolding is_ok
not_ok r e stop = absurd (true≢false (ap is_ok (sym e) ∙ stop))

module _ {H : Type 0} where
  -- The array has its 11 entries, and the first `n` have paths that are allowed.
  unfoldable pub AllowedUpTo : ℕ → TxInfo H → Type 0
  AllowedUpTo n tx =
      (length tx.change_info ≡ 11)
      × ((k : ℕ) → k < n → Allowed (get_or tx.change_info k zero_change).path)

  pub next-AllowedUpTo :
      (i : ℕ) (tx : TxInfo H) (info : ChangeOutputInfo)
      → i < 11
      → AllowedUpTo i tx
      → Allowed info.path
      → AllowedUpTo (i + 1) (record tx { change_info = set tx.change_info i info })
  unfolding AllowedUpTo
  next-AllowedUpTo i tx info h (size, earlier) here = (
    length-set tx.change_info i info ∙ size,
    λ k l. elim (same_or_not k i) [
      | inl same ↦
          let e : get_or (set tx.change_info i info) k zero_change ≡ info =
            ap (λ j. get_or (set tx.change_info i info) j zero_change) same
            ∙ get_or-set tx.change_info i info zero_change (omega arith) in
          subst (λ (c : ChangeOutputInfo). Allowed c.path) (sym e) here
      | inr differ ↦
          subst (λ (c : ChangeOutputInfo). Allowed c.path)
            (sym (get_or-set_other tx.change_info i k info zero_change differ))
            (earlier k (omega (arith, differ)))
    ],
  )

  pub entries-AllowedUpTo :
      (rounds i : ℕ) (b : Buffer) (tx : TxInfo H)
      → i + rounds ≤ 11
      → AllowedUpTo i tx
      → (read_change_entries rounds i b tx).0 ≡ ok tt
      → AllowedUpTo (i + rounds) (read_change_entries rounds i b tx).2
        × ((read_change_entries rounds i b tx).2.change_len ≡ tx.change_len)
  unfolding read_change_entries is_ok
  entries-AllowedUpTo zero i b tx h up e = (subst (λ n. AllowedUpTo n tx) (omega arith) up, refl)
  entries-AllowedUpTo (suc rounds) i b tx h up e =
      let info = record (get_or tx.change_info i zero_change) { index = (buffer_read_u8 b).1 } in
      let b1 = (buffer_read_u8 b).2 in
      let read = buffer_read_bip32_path b1 info.path in
      let info2 = record info { path = read.1 } in
      let tx2 = record tx { change_info = set tx.change_info i info2 } in
      elim (Bool-cases (buffer_read_u8 b).0) [
        | inr short ↦
            let stop : is_ok (read_change_entries (suc rounds) i b tx).0 ≡ false =
              rw (read_change_entries, short) refl in
            not_ok _ e stop
        | inl done ↦ elim (Bool-cases read.0) [
          | inr wrong ↦
              let stop : is_ok (read_change_entries (suc rounds) i b tx).0 ≡ false =
                rw (read_change_entries, done, wrong) refl in
              not_ok _ e stop
          | inl right ↦
              let step : read_change_entries (suc rounds) i b tx
                  ≡ read_change_entries rounds (i + 1) read.2 tx2 =
                rw (read_change_entries, done, right) refl in
              let next =
                next-AllowedUpTo i tx info2 (omega arith) up
                  (read_path-Allowed b1 info.path right) in
              let rest =
                entries-AllowedUpTo rounds (i + 1) read.2 tx2 (omega arith) next
                  (ap (λ r. r.0) (sym step) ∙ e) in
              subst
                (λ (r : Result (Unit {0}) × Buffer × TxInfo H).
                  AllowedUpTo (i + suc rounds) r.2 × (r.2.change_len ≡ tx.change_len))
                (sym step)
                (
                  subst (λ n. AllowedUpTo n (read_change_entries rounds (i + 1) read.2 tx2).2)
                      (omega arith) rest.0,
                  rest.1,
                )
        ]
      ]

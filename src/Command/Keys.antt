-- ===== src/Command/Keys.antt =====
-- src/handler/get_address.c, get_xpub.c and get_version.c with src/helper/send_response.c and the
-- actions of src/ui/action/validate.c. The path screens of UI_SHOW_PATH are left out.
use hathor_ledger_app.Prelude.{
  ℕ, ◌+◌, ◌%◌, Bool, true, false, Option, none, some, List, [], ◌∷◌, ◌++◌, not, ◌||◌, take,
  if◌then◌else◌,
}
use hathor_ledger_app.Bip32.{Bip32Path}
use hathor_ledger_app.Buffer.{Buffer, buffer_read_bip32_path}
use hathor_ledger_app.Result.{
  ok, throw, fault, sw_ok, sw_deny, sw_wrong_data_length, sw_internal_error, sw_bad_state,
}
use hathor_ledger_app.Sdk.{Sdk}
use hathor_ledger_app.Hathor.{
  ◌>>=◌, derive_private_key, init_public_key, compress_public_key, hash160, address_from_pubkey,
}
use hathor_ledger_app.App.{
  App, PkInfo, RequestType, State, state_none, confirm_address, confirm_xpub,
  action_confirm_address, action_confirm_xpub, display_address, display_xpub,
}
use hathor_ledger_app.Base58.{base58_encode}
use hathor_ledger_app.Io.{Ret, code, io_send_sw, io_send_response}
use hathor_ledger_app.Exec.{Exec}
use hathor_ledger_app.Display.{ui_menu_main, clear_ctx, send}

unfoldable pub is_confirm_address : RequestType → Bool
is_confirm_address confirm_address = true
is_confirm_address _ = false

unfoldable pub is_confirm_xpub : RequestType → Bool
is_confirm_xpub confirm_xpub = true
is_confirm_xpub _ = false

unfoldable pub is_none : State → Bool
is_none state_none = true
is_none _ = false

module _ {H : Type 0} (sdk : Sdk H) where
  -- The 65 bytes of the public key at a path, with the chain code.
  unfoldable pub public_key_at : Bip32Path → Option (List ℕ × List ℕ)
  public_key_at path = do
    (private_key, chain_code) ← derive_private_key sdk path.path path.length
    public_key ← init_public_key sdk private_key
    some (public_key, chain_code)

  -- The test of `W_len` (65) against the size of `raw_public_key` (65) cannot fail.
  unfoldable pub derive_address : Exec (App H) (Unit {0})
  derive_address app = elim (public_key_at app.ctx.bip32_path) [
    | none ↦ (throw sw_internal_error, app)
    | some (public_key, _) ↦ (
      ok tt,
      record app {
        ctx = record app.ctx { pk_info = record app.ctx.pk_info { raw_public_key = public_key } };
      },
    )
  ]

  -- The first 4 bytes of the hash of the parent's public key. The depth is a `uint8_t`.
  unfoldable pub fingerprint_of : Bip32Path → Option (List ℕ)
  fingerprint_of path = do
    (parent_key, _) ← public_key_at (record path { length = (path.length + 255) % 256 })
    parent_hash ← hash160 sdk (take 33 (compress_public_key parent_key))
    some (take 4 parent_hash)

  abbrev pub with_pk_info : App H → PkInfo → App H
  with_pk_info app pk_info = record app { ctx = record app.ctx { pk_info = pk_info } }

  unfoldable pub derive_xpub : Exec (App H) (Unit {0})
  derive_xpub app = elim (public_key_at app.ctx.bip32_path) [
    | none ↦ (throw sw_internal_error, app)
    | some (public_key, chain_code) ↦
        let pk = record app.ctx.pk_info {
          raw_public_key = public_key;
          chain_code = take 32 chain_code;
        } in
        elim (fingerprint_of app.ctx.bip32_path) [
          | none ↦ (throw sw_internal_error, with_pk_info app pk)
          | some fingerprint ↦ (ok tt, with_pk_info app (record pk { fingerprint = fingerprint }))
        ]
  ]

  -- G_context.state = STATE_NONE; return io_send_sw(SW_BAD_STATE)
  abbrev pub refuse_state : App H → Ret × App H
  refuse_state app =
      io_send_sw sdk sw_bad_state (record app { ctx = record app.ctx { state = state_none } })

  -- The address shown is derived once more.
  unfoldable pub show_address : App H → Ret × App H
  show_address app =
      elim (public_key_at app.ctx.bip32_path >>= λ keys. address_from_pubkey sdk keys.0) [
        | none ↦ (code 1, ui_menu_main (send sdk sw_internal_error (clear_ctx sdk app)))
        | some address ↦ (
          code 0,
          record app {
            callback = some action_confirm_address;
            flow = display_address;
            screen = record app.screen {
              address = elim (base58_encode address 35) [ none ↦ [] | some text ↦ text ];
            };
          },
        )
      ]

  unfoldable pub ui_display_confirm_address : App H → Ret × App H
  ui_display_confirm_address app =
      if not (is_confirm_address app.ctx.req_type) || not (is_none app.ctx.state)
      then refuse_state app
      else show_address (record app { screen = record app.screen { address = [] } })

  unfoldable pub ui_display_xpub_confirm : App H → Ret × App H
  ui_display_xpub_confirm app =
      if not (is_confirm_xpub app.ctx.req_type) || not (is_none app.ctx.state)
      then refuse_state app
      else (code 0, record app { callback = some action_confirm_xpub; flow = display_xpub })

  -- The common start of the two handlers: the context is zeroed, then the path is read.
  unfoldable pub read_path : RequestType → Buffer → App H → Bool × App H
  read_path req b app =
      let zeroed = clear_ctx sdk app in
      let (read, path, _) = buffer_read_bip32_path b zeroed.ctx.bip32_path in
      (read, record zeroed { ctx = record zeroed.ctx { req_type = req; bip32_path = path } })

  unfoldable pub handler_get_address : Buffer → Exec (App H) Ret
  handler_get_address b app =
      let (read, app1) = read_path confirm_address b app in
      let (r, app2) = derive_address app1 in
      if read
      then elim r [
        | ok _ ↦ (let (ret, app3) = ui_display_confirm_address app2 in (ok ret, app3))
        | throw e ↦ (throw e, app2)
        | fault ↦ (fault, app2)
      ]
      else (let (ret, app3) = io_send_sw sdk sw_wrong_data_length app1 in (ok ret, app3))

  unfoldable pub handler_get_xpub : Buffer → Exec (App H) Ret
  handler_get_xpub b app =
      let (read, app1) = read_path confirm_xpub b app in
      let (r, app2) = derive_xpub app1 in
      if read
      then elim r [
        | ok _ ↦ (let (ret, app3) = ui_display_xpub_confirm app2 in (ok ret, app3))
        | throw e ↦ (throw e, app2)
        | fault ↦ (fault, app2)
      ]
      else (let (ret, app3) = io_send_sw sdk sw_wrong_data_length app1 in (ok ret, app3))

  unfoldable pub helper_send_response_xpub : App H → App H
  helper_send_response_xpub app =
      let pk = app.ctx.pk_info in
      let resp = take 65 pk.raw_public_key ++ (take 32 pk.chain_code ++ take 4 pk.fingerprint) in
      (io_send_response sdk (record { ptr = resp; size = 101; offset = 0 }) sw_ok app).1

  unfoldable pub ui_action_confirm_xpub : Bool → App H → App H
  ui_action_confirm_xpub true app = ui_menu_main (helper_send_response_xpub app)
  ui_action_confirm_xpub false app = ui_menu_main (send sdk sw_deny (clear_ctx sdk app))

  unfoldable pub ui_action_confirm_address : Bool → App H → App H
  ui_action_confirm_address true app = ui_menu_main (send sdk sw_ok app)
  ui_action_confirm_address false app = ui_menu_main (send sdk sw_deny (clear_ctx sdk app))

  -- The three version numbers are parameters of the build.
  unfoldable pub handler_get_version : ℕ → ℕ → ℕ → App H → Ret × App H
  handler_get_version major minor patch app =
      io_send_response sdk
        (record { ptr = b'H' ∷ b'T' ∷ b'R' ∷ major ∷ minor ∷ patch ∷ []; size = 6; offset = 0 })
        sw_ok app

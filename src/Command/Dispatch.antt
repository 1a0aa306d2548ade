-- ===== src/Command/Dispatch.antt =====
-- src/apdu/dispatcher.c: from a command to its handler. `command_e` are the numbers of src/types.h.
use hathor_ledger_app.Prelude.{
  ℕ, ◌&&◌, ◌||◌, Bool, true, false, not, none, some, [], ltb, ◌==◌, if◌then◌else◌,
}
use hathor_ledger_app.Buffer.{Buffer}
use hathor_ledger_app.Result.{
  sw_wrong_p1p2, sw_wrong_data_length, sw_ins_not_supported, sw_cla_not_supported,
}
use hathor_ledger_app.Exec.{Exec, returns}
use hathor_ledger_app.Sdk.{Sdk}
use hathor_ledger_app.App.{App}
use hathor_ledger_app.Io.{Ret, io_send_sw}
use hathor_ledger_app.Handler.{
  Stage, stage_data, stage_sign, stage_done, stage_other, handler_sign_tx,
}
use hathor_ledger_app.Command.{Command}
use hathor_ledger_app.Command.Tokens.{
  handler_sign_token_data, handler_send_token_data, handler_verify_token_signature,
  ui_display_reset_token_signatures_confirm,
}
use hathor_ledger_app.Command.Keys.{handler_get_address, handler_get_xpub, handler_get_version}

abbrev pub cla : ℕ
cla = 0xE0

abbrev pub get_version : ℕ
get_version = 0x03

abbrev pub get_address : ℕ
get_address = 0x04

abbrev pub get_xpub : ℕ
get_xpub = 0x05

abbrev pub sign_tx : ℕ
sign_tx = 0x06

abbrev pub sign_token_data : ℕ
sign_token_data = 0x07

abbrev pub send_token_data : ℕ
send_token_data = 0x08

abbrev pub verify_token_signature : ℕ
verify_token_signature = 0x09

abbrev pub reset_token_signatures : ℕ
reset_token_signatures = 0x0a

-- The buffer that the handler gets: `data` may be NULL, with a size of 0.
unfoldable pub data_buffer : Command → Buffer
data_buffer cmd = elim cmd.cdata [
  | none ↦ record { ptr = []; size = cmd.lc; offset = 0 }
  | some bytes ↦ record { ptr = bytes; size = cmd.lc; offset = 0 }
]

unfoldable pub has_data : Command → Bool
has_data cmd = elim cmd.cdata [ none ↦ false | some _ ↦ true ]

unfoldable pub stage_of : ℕ → Stage
stage_of p1 =
    if p1 == 0
    then stage_data
    else if p1 == 1
    then stage_sign
    else if p1 == 2
    then stage_done
    else stage_other

module _ {H : Type 0} (sdk : Sdk H) (cx_error major minor patch : ℕ) where
  -- return io_send_sw(sw)
  abbrev pub answer : ℕ → Exec (App H) Ret
  answer sw app = returns (io_send_sw sdk sw app)

  -- The tests of SIGN_TX on p1, p2 and the presence of data.
  unfoldable pub dispatch_sign_tx : Command → Exec (App H) Ret
  dispatch_sign_tx cmd =
      if ltb 2 cmd.p1 || (cmd.p1 == 1 && not (cmd.p2 == 0)) || (cmd.p1 == 2 && not (cmd.p2 == 0))
      then answer sw_wrong_p1p2
      else if (cmd.p1 == 0 && not (has_data cmd))
          || (cmd.p1 == 1 && not (has_data cmd))
          || (cmd.p1 == 2 && has_data cmd)
      then answer sw_wrong_data_length
      else handler_sign_tx sdk cx_error (data_buffer cmd) (stage_of cmd.p1) cmd.p2

  -- if (p1 != 0 || p2 != 0) return io_send_sw(SW_WRONG_P1P2)
  abbrev pub no_params : Command → Exec (App H) Ret → Exec (App H) Ret
  no_params cmd handler =
      if not (cmd.p1 == 0) || not (cmd.p2 == 0) then answer sw_wrong_p1p2 else handler

  -- if (!data) return io_send_sw(SW_WRONG_DATA_LENGTH)
  abbrev pub with_data : Command → Exec (App H) Ret → Exec (App H) Ret
  with_data cmd handler = if has_data cmd then handler else answer sw_wrong_data_length

  unfoldable pub apdu_dispatcher : Command → Exec (App H) Ret
  apdu_dispatcher cmd =
      if not (cmd.cla == cla)
      then answer sw_cla_not_supported
      else if cmd.ins == get_version
      then no_params cmd (λ app. returns (handler_get_version sdk major minor patch app))
      else if cmd.ins == get_address
      then no_params cmd (with_data cmd (handler_get_address sdk (data_buffer cmd)))
      else if cmd.ins == get_xpub
      then no_params cmd (with_data cmd (handler_get_xpub sdk (data_buffer cmd)))
      else if cmd.ins == sign_tx
      then dispatch_sign_tx cmd
      else if cmd.ins == sign_token_data
      then no_params cmd (λ app. returns (handler_sign_token_data sdk (data_buffer cmd) app))
      else if cmd.ins == send_token_data
      then (if not (cmd.p2 == 0) then answer sw_wrong_p1p2 else λ app.
          returns (handler_send_token_data sdk (cmd.p1 == 0) (data_buffer cmd) app))
      else if cmd.ins == verify_token_signature
      then no_params cmd (λ app. returns (handler_verify_token_signature sdk (data_buffer cmd) app))
      else if cmd.ins == reset_token_signatures
      then no_params cmd (λ app. returns (ui_display_reset_token_signatures_confirm sdk app))
      else answer sw_ins_not_supported

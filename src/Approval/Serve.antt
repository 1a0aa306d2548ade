-- ===== src/Approval/Serve.antt =====
-- The dispatcher and the main loop: no command approves a transaction, and nothing but the button of
-- the confirmation screen does.
use hathor_ledger_app.Prelude.{
  ◌==◌, Bool-cases, subst, inl, inr, ℕ, ◌≡◌, Bool, true, false, Option, none, some, List, inl, inr,
  Bool-cases, ◌==◌, not, ◌||◌, arith,
}
use hathor_ledger_app.Result.{
  Result, ok, throw, fault, sw_wrong_data_length, sw_wrong_p1p2, sw_cla_not_supported,
  sw_ins_not_supported,
}
use hathor_ledger_app.Exec.{Exec, returns}
use hathor_ledger_app.Sdk.{Sdk}
use hathor_ledger_app.App.{App}
use hathor_ledger_app.Io.{Ret, minus_one, code}
use hathor_ledger_app.Display.{send}
use hathor_ledger_app.Command.{Command, apdu_parser}
use hathor_ledger_app.Command.Tokens.{
  handler_verify_token_signature, handler_sign_token_data,
  ui_display_reset_token_signatures_confirm,
}
use hathor_ledger_app.Command.Keys.{handler_get_address, handler_get_xpub, handler_get_version}
use hathor_ledger_app.Command.Dispatch.{
  no_params, with_data, get_version, get_address, get_xpub, sign_tx, sign_token_data,
  send_token_data, verify_token_signature, reset_token_signatures, cla, dispatch_sign_tx,
  apdu_dispatcher, data_buffer, stage_of, has_data,
}
use hathor_ledger_app.Command.Main.{
  catch_exception, start_app_main, await_command, command_arrived, finish_command, serve_parsed,
  serve_command,
}
use hathor_ledger_app.Approval.{NotApproved, Safe, safe, NotApproved-Safe, Safe-NotApproved}
use hathor_ledger_app.Approval.Handlers.{
  Keeps-answer, Keeps-sign_tx, Keeps-send_token, Keeps-verify_token, Keeps-sign_token,
  Keeps-address, Keeps-xpub, Keeps-version, Keeps-reset,
}

module _ {H : Type 0} (sdk : Sdk H) (buttons states : Bool) where
  abbrev Keeps : App H → Type 0
  Keeps app = Safe buttons states app

  module _ (cx_error major minor patch : ℕ) where
    Keeps-dispatch_sign_tx :
        (cmd : Command) (app : App H)
        → Keeps app
        → Keeps (dispatch_sign_tx sdk cx_error major minor patch cmd app).1
    unfolding dispatch_sign_tx
    Keeps-dispatch_sign_tx cmd app h = ground (
      arith,
      Keeps-answer sdk buttons states sw_wrong_p1p2 app h,
      Keeps-answer sdk buttons states sw_wrong_data_length app h,
      Keeps-sign_tx sdk buttons states cx_error (data_buffer cmd) (stage_of cmd.p1) cmd.p2 app h,
    )

    Keeps-no_params :
        (cmd : Command) (f : Exec (App H) Ret) (app : App H)
        → Keeps app
        → Keeps (f app).1
        → Keeps (no_params sdk cx_error major minor patch cmd f app).1
    Keeps-no_params cmd f app h hf = elim (Bool-cases (not (cmd.p1 == 0) || not (cmd.p2 == 0))) [
      | inl e ↦ rw e (Keeps-answer sdk buttons states sw_wrong_p1p2 app h)
      | inr e ↦ rw e hf
    ]

    Keeps-with_data :
        (cmd : Command) (f : Exec (App H) Ret) (app : App H)
        → Keeps app
        → Keeps (f app).1
        → Keeps (with_data sdk cx_error major minor patch cmd f app).1
    Keeps-with_data cmd f app h hf = elim (Bool-cases (has_data cmd)) [
      | inl e ↦ rw e hf
      | inr e ↦ rw e (Keeps-answer sdk buttons states sw_wrong_data_length app h)
    ]

    Keeps-dispatch :
        (cmd : Command) (app : App H)
        → Keeps app
        → Keeps (apdu_dispatcher sdk cx_error major minor patch cmd app).1
    unfolding apdu_dispatcher
    Keeps-dispatch cmd app h =
        let wd = with_data sdk cx_error major minor patch cmd in
        elim (Bool-cases (cmd.cla == cla)) [
          | inr e ↦ rw e (Keeps-answer sdk buttons states sw_cla_not_supported app h)
          | inl c ↦ rw c (elim (Bool-cases (cmd.ins == get_version)) [
            | inl e ↦ rw e (
                Keeps-no_params cmd (λ s. returns (handler_get_version sdk major minor patch s)) app
                  h (Keeps-version sdk buttons states major minor patch app h))
            | inr e ↦ rw e (elim (Bool-cases (cmd.ins == get_address)) [
              | inl e ↦ rw e (
                  Keeps-no_params cmd (wd (handler_get_address sdk (data_buffer cmd))) app h (
                    Keeps-with_data cmd _ app h
                      (Keeps-address sdk buttons states (data_buffer cmd) app h)))
              | inr e ↦ rw e (elim (Bool-cases (cmd.ins == get_xpub)) [
                | inl e ↦ rw e (
                    Keeps-no_params cmd (wd (handler_get_xpub sdk (data_buffer cmd))) app h (
                      Keeps-with_data cmd _ app h
                        (Keeps-xpub sdk buttons states (data_buffer cmd) app h)))
                | inr e ↦ rw e (elim (Bool-cases (cmd.ins == sign_tx)) [
                  | inl e ↦ rw e (Keeps-dispatch_sign_tx cmd app h)
                  | inr e ↦ rw e (elim (Bool-cases (cmd.ins == sign_token_data)) [
                    | inl e ↦ rw e (
                        Keeps-no_params cmd
                          (λ s. returns (handler_sign_token_data sdk (data_buffer cmd) s)) app h
                          (Keeps-sign_token sdk buttons states (data_buffer cmd) app h))
                    | inr e ↦ rw e (elim (Bool-cases (cmd.ins == send_token_data)) [
                      | inl e ↦ rw e (elim (Bool-cases (cmd.p2 == 0)) [
                        | inl z ↦ rw z (
                            Keeps-send_token sdk buttons states (cmd.p1 == 0) (data_buffer cmd) app
                              h)
                        | inr z ↦ rw z (Keeps-answer sdk buttons states sw_wrong_p1p2 app h)
                      ])
                      | inr e ↦ rw e (elim (Bool-cases (cmd.ins == verify_token_signature)) [
                        | inl e ↦ rw e (
                            Keeps-no_params cmd
                              (λ s.
                                returns (handler_verify_token_signature sdk (data_buffer cmd) s))
                              app h (Keeps-verify_token sdk buttons states (data_buffer cmd) app h))
                        | inr e ↦ rw e (elim (Bool-cases (cmd.ins == reset_token_signatures)) [
                          | inl e ↦ rw e (
                              Keeps-no_params cmd
                                (λ s. returns (ui_display_reset_token_signatures_confirm sdk s)) app
                                h (Keeps-reset sdk buttons states app h))
                          | inr e ↦
                              rw e ((Keeps-answer sdk buttons states sw_ins_not_supported app h))
                        ])
                      ])
                    ])
                  ])
                ])
              ])
            ])
          ])
        ]

  pub Keeps-start_app : (app : App H) → Keeps (start_app_main sdk app)
  unfolding start_app_main safe
  Keeps-start_app app = ground arith

  pub Keeps-await : (app : App H) → Keeps app → Keeps (await_command sdk app)
  unfolding await_command
  Keeps-await app h = ground (arith, Keeps-start_app app)

  Keeps-arrived : (app : App H) → Keeps app → Keeps (command_arrived sdk app)
  unfolding command_arrived
  Keeps-arrived app h = elim (Bool-cases app.asynch_reply) [ inl e ↦ rw e h | inr e ↦ rw e h ]

  pub Keeps-exception :
      (e : ℕ) (app app' : App H) → Keeps app → catch_exception sdk e app ≡ some app' → Keeps app'
  Keeps-exception e app app' h caught = elim (Bool-cases (e == sdk.exception_io_reset)) [
    | inl reset ↦
        let again : await_command sdk (start_app_main sdk app) ≡ app' = ground arith in
        subst Keeps again (Keeps-await (start_app_main sdk app) (Keeps-start_app app))
    | inr other ↦
        let answered : await_command sdk (send sdk e app) ≡ app' = ground arith in
        subst Keeps answered
          (Keeps-await (send sdk e app) (Keeps-answer sdk buttons states e app h))
  ]

  module _ (cx_error major minor patch : ℕ) where
    Keeps-finish :
        (r : Result Ret × App H) (app' : App H)
        → Keeps r.1
        → finish_command sdk cx_error major minor patch r ≡ some app'
        → Keeps app'
    unfolding finish_command
    Keeps-finish (ok minus_one, app) app' h e =
        ground (arith, Keeps-await (start_app_main sdk app) (Keeps-start_app app))
    Keeps-finish (ok (code n), app) app' h e = ground (arith, Keeps-await app h)
    Keeps-finish (throw x, app) app' h e = Keeps-exception x app app' h e
    Keeps-finish (fault, app) app' h e = ground arith

    Keeps-parsed :
        (cmd : Option Command) (app app' : App H)
        → Keeps app
        → serve_parsed sdk cx_error major minor patch cmd app ≡ some app'
        → Keeps app'
    unfolding serve_parsed
    Keeps-parsed none app app' h e = ground (
      arith,
      Keeps-await (send sdk sw_wrong_data_length app)
          (Keeps-answer sdk buttons states sw_wrong_data_length app h),
    )
    Keeps-parsed (some cmd) app app' h e =
        Keeps-finish _ app' (Keeps-dispatch cx_error major minor patch cmd app h) e

    pub Keeps-serve_command :
        (bytes : List ℕ) (len : ℕ) (app app' : App H)
        → Keeps app
        → serve_command sdk cx_error major minor patch bytes len app ≡ some app'
        → Keeps app'
    unfolding serve_command
    Keeps-serve_command bytes len app app' h e =
        Keeps-parsed (apdu_parser bytes len) (command_arrived sdk app) app' (Keeps-arrived app h) e

module _ {H : Type 0} (sdk : Sdk H) (cx_error major minor patch : ℕ) where
  pub catch_exception-NotApproved :
      (e : ℕ) (app app' : App H)
      → NotApproved app
      → catch_exception sdk e app ≡ some app'
      → NotApproved app'
  catch_exception-NotApproved e app app' h caught =
      Safe-NotApproved app'
        (Keeps-exception sdk false true e app app' (NotApproved-Safe app h) caught)

  -- A command that the loop serves, whatever its bytes, leaves a transaction that is not approved
  -- not approved: no message of the host brings the program into the state in which it signs.
  pub serve_command-NotApproved :
      (bytes : List ℕ) (len : ℕ) (app app' : App H)
      → NotApproved app
      → serve_command sdk cx_error major minor patch bytes len app ≡ some app'
      → NotApproved app'
  serve_command-NotApproved bytes len app app' h e = Safe-NotApproved app' (
      Keeps-serve_command sdk false true cx_error major minor patch bytes len app app'
        (NotApproved-Safe app h) e)

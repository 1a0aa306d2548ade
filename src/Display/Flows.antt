-- ===== src/Display/Flows.antt =====
-- src/ui/display.c and src/ui/menu.c: the steps of the screens, what they show and what a press of
-- both buttons does on them. UX_FLOW, UX_STEP_NOCB, UX_STEP_CB and UX_STEP_VALID are of the SDK: a
-- flow is the list of its steps, between which the user moves freely. The icons, and the path step
-- of UI_SHOW_PATH, are left out.
use hathor_ledger_app.Prelude.{ℕ, zero, suc, Bool, true, false, Option, none, some, List, [], ◌∷◌}
use hathor_ledger_app.Format.{codes}
use hathor_ledger_app.App.{
  Screen, Flow, menu_main, menu_about, display_processing, display_confirm_tx, display_tx_output,
  display_xpub, display_address, display_reset_token_signatures, display_sign_token_data,
}

-- The steps, by their names in C without `ux_`.
pub data UxStep : Type 0 where
  display_processing_step sendtx_exit_step display_address_step display_amount_step
        display_approve_step display_reject_step display_confirm_addr_step
        display_review_output_step display_confirm_sign_step display_confirm_step
        display_reset_token_signatures_alert display_reset_token_signatures_warning
        display_token_data_0 display_token_data_1_symbol display_token_data_2_name
        display_token_data_3_uid menu_ready_step menu_version_step menu_about_step menu_exit_step
        menu_info_step menu_back_step :
      UxStep

-- What a press does: nothing, `(*g_validate_callback)(choice)`, `action_exit_to_menu`,
-- `ui_menu_about`, `ui_menu_main`, or `os_sched_exit`.
pub data UxAction : Type 0 where
  no_action : UxAction
  validate : Bool → UxAction
  exit_to_menu open_about open_menu sched_exit : UxAction

unfoldable pub step_action : UxStep → UxAction
step_action sendtx_exit_step = exit_to_menu
step_action display_approve_step = validate true
step_action display_reject_step = validate false
step_action menu_about_step = open_about
step_action menu_exit_step = sched_exit
step_action menu_back_step = open_menu
step_action _ = no_action

-- The lines of text of a step. `version` is APPVERSION, a text that the build gives.
unfoldable pub step_text : List ℕ → Screen → UxStep → List (List ℕ)
step_text version s display_processing_step = codes "Processing" ∷ []
step_text version s sendtx_exit_step = codes "Quit" ∷ []
step_text version s display_address_step = codes "Address" ∷ s.address ∷ []
step_text version s display_amount_step = codes "Amount" ∷ s.amount ∷ []
step_text version s display_approve_step = codes "Approve" ∷ []
step_text version s display_reject_step = codes "Reject" ∷ []
step_text version s display_confirm_addr_step = codes "Confirm" ∷ codes "Address" ∷ []
step_text version s display_review_output_step = codes "Output" ∷ s.output_index ∷ []
step_text version s display_confirm_sign_step = codes "Send" ∷ codes "Transaction?" ∷ []
step_text version s display_confirm_step = codes "Confirm" ∷ codes "access?" ∷ []
step_text version s display_reset_token_signatures_alert = codes "Reset token signatures" ∷ []
step_text version s display_reset_token_signatures_warning =
    codes "Warning" ∷ codes "This action will reset all token signatures" ∷ []
step_text version s display_token_data_0 = codes "Confirm token data" ∷ []
step_text version s display_token_data_1_symbol = codes "Symbol" ∷ s.token_symbol ∷ []
step_text version s display_token_data_2_name = codes "Name" ∷ s.token_name ∷ []
step_text version s display_token_data_3_uid = codes "UID" ∷ s.token_uid ∷ []
step_text version s menu_ready_step = codes "Hathor" ∷ codes "is ready" ∷ []
step_text version s menu_version_step = codes "Version" ∷ version ∷ []
step_text version s menu_about_step = codes "About" ∷ []
step_text version s menu_exit_step = codes "Quit" ∷ []
step_text version s menu_info_step = codes "Hathor App" ∷ codes "(c) 2024 Hathor Labs" ∷ []
step_text version s menu_back_step = codes "Back" ∷ []

abbrev menu_main_flow : List UxStep
menu_main_flow = menu_ready_step ∷ menu_version_step ∷ menu_about_step ∷ menu_exit_step ∷ []

abbrev menu_about_flow : List UxStep
menu_about_flow = menu_info_step ∷ menu_back_step ∷ []

abbrev display_processing_flow : List UxStep
display_processing_flow = display_processing_step ∷ sendtx_exit_step ∷ []

abbrev display_confirm_tx_flow : List UxStep
display_confirm_tx_flow =
    display_confirm_sign_step ∷ display_approve_step ∷ display_reject_step ∷ []

abbrev display_tx_output_flow : List UxStep
display_tx_output_flow =
    display_review_output_step ∷ display_address_step ∷ display_amount_step ∷ display_approve_step
    ∷ display_reject_step ∷ []

abbrev display_xpub_flow : List UxStep
display_xpub_flow = display_confirm_step ∷ display_approve_step ∷ display_reject_step ∷ []

abbrev display_address_flow : List UxStep
display_address_flow = display_confirm_addr_step ∷ display_address_step ∷ display_approve_step ∷ []

abbrev display_reset_token_signatures_flow : List UxStep
display_reset_token_signatures_flow =
    display_reset_token_signatures_alert ∷ display_reset_token_signatures_warning
    ∷ display_approve_step ∷ display_reject_step ∷ []

abbrev display_sign_token_data_flow : List UxStep
display_sign_token_data_flow =
    display_token_data_0 ∷ display_token_data_1_symbol ∷ display_token_data_2_name
    ∷ display_token_data_3_uid ∷ display_approve_step ∷ display_reject_step ∷ []

unfoldable pub flow_steps : Flow → List UxStep
flow_steps menu_main = menu_main_flow
flow_steps menu_about = menu_about_flow
flow_steps display_processing = display_processing_flow
flow_steps display_confirm_tx = display_confirm_tx_flow
flow_steps display_tx_output = display_tx_output_flow
flow_steps display_xpub = display_xpub_flow
flow_steps display_address = display_address_flow
flow_steps display_reset_token_signatures = display_reset_token_signatures_flow
flow_steps display_sign_token_data = display_sign_token_data_flow

abbrev nth : ℕ → List UxStep → Option UxStep
nth n [] = none
nth zero (x ∷ xs) = some x
nth (suc n) (x ∷ xs) = nth n xs

-- What a press does on step `n` of a flow; a number behind its end does nothing.
unfoldable pub action_at : Flow → ℕ → UxAction
unfolding flow_steps step_action
action_at flow n = elim (nth n (flow_steps flow)) [
  | none ↦ no_action
  | some step ↦ step_action step
]

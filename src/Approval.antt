-- ===== src/Approval.antt =====
-- Who can bring the program into the state STATE_APPROVED, in which it signs, and that the buttons
-- of a screen call the function that the screen stands for.
pub mod Screens
pub mod Commands
pub mod Handlers
pub mod Serve
pub mod Button
pub mod Trace
use hathor_ledger_app.Prelude.{arith, ℕ, ◌≡◌, Bool, true, false, not, ◌&&◌, ◌||◌, Option, some}
use hathor_ledger_app.App.{
  App, State, Callback, action_confirm_xpub, action_confirm_address, action_sign_token_data,
  action_tx_confirm, confirm_output, confirm_reset_token_signatures, Flow, menu_main, menu_about,
  display_processing, display_confirm_tx, display_tx_output, display_xpub, display_address,
  display_reset_token_signatures, display_sign_token_data,
}
use hathor_ledger_app.Handler.{is_approved}

abbrev pub NotApproved : {H : Type 0} → App H → Type 0
NotApproved app = is_approved app.ctx.state ≡ false

-- The callback belongs to the screen: a screen with buttons has its own callback, the others any.
unfoldable pub belongs : Flow → Option Callback → Bool
belongs menu_main c = true
belongs menu_about c = true
belongs display_processing c = true
belongs display_confirm_tx (some action_tx_confirm) = true
belongs display_tx_output (some confirm_output) = true
belongs display_xpub (some action_confirm_xpub) = true
belongs display_address (some action_confirm_address) = true
belongs display_reset_token_signatures (some confirm_reset_token_signatures) = true
belongs display_sign_token_data (some action_sign_token_data) = true
belongs _ _ = false

unfoldable pub safe : Bool → Bool → State → Flow → Option Callback → Bool
unfolding belongs is_approved
safe buttons states state flow callback =
    (not buttons || belongs flow callback) && (not states || not (is_approved state))

-- Where `buttons` is set, the callback belongs to the screen, and where `states` is set, no
-- transaction is approved.
abbrev pub Safe : {H : Type 0} → Bool → Bool → App H → Type 0
Safe buttons states app = safe buttons states app.ctx.state app.flow app.callback ≡ true

module _ {H : Type 0} where
  pub NotApproved-Safe : (app : App H) → NotApproved app → Safe false true app
  unfolding safe
  NotApproved-Safe app h = ground arith

  pub Safe-NotApproved : (app : App H) → Safe false true app → NotApproved app
  unfolding safe
  Safe-NotApproved app h = ground arith

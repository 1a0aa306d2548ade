-- ===== src/Tests/Review.antt =====
-- The review of a transaction whose second output is change.
use hathor_ledger_app.Prelude.{ℕ, ◌+◌, ◌≡◌, ◌≤◌, ◌<◌, refl, true, false, List, [], ◌∷◌, arith}
use hathor_ledger_app.App.{App, zero_change, zero_tx_info, confirm_transaction}
use hathor_ledger_app.Result.{ok}
use hathor_ledger_app.Display.{
  ui_confirm_output, inplace_selection_sort, sort_loop, least_position, skip_change_outputs,
  skip_loop, check_output_index_state,
}
use hathor_ledger_app.Display.Sort.{Ascending, is_at, count, inplace_selection_sort-sorts}
use hathor_ledger_app.Display.Indices.{confirmed, change_indices}
use hathor_ledger_app.Display.Skip.{Pending, skip_change_outputs-change, skip_change_outputs-stops}
use hathor_ledger_app.Display.Last.{AsksToSend, ui_confirm_output-last}
use hathor_ledger_app.Display.Review.{InReview}
use hathor_ledger_app.Display.Approve.{Ends}
use hathor_ledger_app.Display.Progress.{approvals, approvals-Ends}
use hathor_ledger_app.Display.Past.{AtUndecodedChange, skip_change_outputs-past}
use hathor_ledger_app.Tests.{test_sdk, idle}

inplace_selection_sort-sorts_example :
    Ascending (inplace_selection_sort 3 (3 ∷ 1 ∷ 2 ∷ []))
    × (count 1 (inplace_selection_sort 3 (3 ∷ 1 ∷ 2 ∷ [])) ≡ 1)
unfolding is_at
inplace_selection_sort-sorts_example =
    inplace_selection_sort-sorts 3 (3 ∷ 1 ∷ 2 ∷ []) 1 (omega arith) refl

-- Three outputs are decoded, the user is at the second, and the second and the first are change.
abbrev review : App (List ℕ)
review = record idle {
  ctx = record idle.ctx {
    tx_info = record idle.ctx.tx_info {
      outputs_len = 3;
      buffer_output_len = 3;
      confirmed_outputs = 1;
      display_index = 1;
      change_len = 2;
      change_info = record zero_change { index = 1 } ∷ record zero_change { index = 0 } ∷ [];
    };
  };
}

skip_change_outputs-change_example : 0 < count 1 (change_indices review)
unfolding skip_change_outputs skip_loop inplace_selection_sort sort_loop least_position
    check_output_index_state zero_change
skip_change_outputs-change_example =
    skip_change_outputs-change test_sdk review 1 (omega arith, omega arith) (omega arith)
      (omega arith) (omega arith)

skip_change_outputs-stops_example :
    Pending (skip_change_outputs test_sdk review).1
    × (1 ≤ confirmed (skip_change_outputs test_sdk review).1)
    × (count (confirmed (skip_change_outputs test_sdk review).1) (change_indices review) ≡ 0)
unfolding skip_change_outputs skip_loop inplace_selection_sort sort_loop least_position
    check_output_index_state zero_change
skip_change_outputs-stops_example =
    skip_change_outputs-stops test_sdk review (omega arith, omega arith) (omega arith) refl

-- Two outputs, of which one is decoded and on the screen, and the other is change and has not
-- arrived.
abbrev before_change : App (List ℕ)
before_change = record idle {
  ctx = record idle.ctx {
    req_type = confirm_transaction;
    tx_info = record idle.ctx.tx_info {
      outputs_len = 2;
      current_output = 1;
      buffer_output_len = 1;
      change_len = 1;
      change_info = record zero_change { index = 1 } ∷ [];
    };
  };
}

ui_confirm_output-last_example :
    ((ui_confirm_output test_sdk true before_change).0 ≡ ok tt)
    × AsksToSend test_sdk (ui_confirm_output test_sdk true before_change).1
unfolding zero_change is_at zero_tx_info
ui_confirm_output-last_example =
    ui_confirm_output-last test_sdk before_change refl refl (omega arith) (omega arith)
      (omega arith)

-- The first of three outputs has been confirmed, and the second, which is change, has not arrived.
abbrev behind_first : App (List ℕ)
behind_first = record idle {
  ctx = record idle.ctx {
    tx_info = record idle.ctx.tx_info {
      outputs_len = 3;
      confirmed_outputs = 1;
      display_index = 1;
      buffer_output_len = 1;
      change_len = 1;
      change_info = record zero_change { index = 1 } ∷ [];
    };
  };
}

behind_first-AtUndecodedChange : AtUndecodedChange test_sdk behind_first
unfolding zero_change is_at zero_tx_info
behind_first-AtUndecodedChange = record {
  all_shown = refl;
  few = omega arith;
  more = omega arith;
  outputs_len = omega arith;
  fits = omega arith;
  change = omega arith;
  no_change = refl;
}

skip_change_outputs-past_example :
    let app' = (skip_change_outputs test_sdk behind_first).1 in
    ((skip_change_outputs test_sdk behind_first).0 ≡ false)
    × (app'.ctx.tx_info.display_index ≡ app'.ctx.tx_info.buffer_output_len + 1)
skip_change_outputs-past_example =
    skip_change_outputs-past test_sdk behind_first behind_first-AtUndecodedChange

before_change-InReview : InReview before_change
unfolding zero_change zero_tx_info
before_change-InReview = record {
  before_last = omega arith;
  change = record { outputs_len = omega arith; fits = omega arith; named = (omega arith, tt) };
}

approvals-Ends_example : Ends test_sdk (approvals test_sdk 2 before_change)
unfolding zero_change zero_tx_info
approvals-Ends_example =
    approvals-Ends test_sdk 2 before_change before_change-InReview (omega arith)

-- ===== src/Command.antt =====
-- src/apdu/parser.c: a command out of the received bytes.
pub mod Tokens
pub mod Keys
pub mod Dispatch
pub mod Main
pub mod Registration
use hathor_ledger_app.Prelude.{
  ℕ, ◌+◌, ◌-◌, Bool, true, false, not, ◌||◌, Option, none, some, List, drop, ltb, ◌==◌,
  if◌then◌else◌,
}
use hathor_ledger_app.Bytes.{at}

abbrev pub offset_cdata : ℕ
offset_cdata = 5

-- `command_t`; `none` is a NULL pointer.
pub record Command : Type 0 where
  pub cla : ℕ
  pub ins : ℕ
  pub p1 : ℕ
  pub p2 : ℕ
  pub lc : ℕ
  pub cdata : Option (List ℕ)

-- `none` is the result false.
unfoldable pub apdu_parser : List ℕ → ℕ → Option Command
apdu_parser buf buf_len =
    if ltb buf_len offset_cdata || not (buf_len - offset_cdata == at buf 4)
    then none
    else some (record {
      cla = at buf 0;
      ins = at buf 1;
      p1 = at buf 2;
      p2 = at buf 3;
      lc = at buf 4;
      cdata = if ltb 0 (at buf 4) then some (drop offset_cdata buf) else none;
    })

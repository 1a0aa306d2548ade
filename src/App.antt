-- ===== src/App.antt =====
-- src/types.h and src/globals.h: the global state of the program. `G_context.pk_info` and
-- `G_context.tx_info` share memory in C. Here they are two fields: a command that fills one starts
-- by zeroing the whole context. The fields `change_output_index`, `change_bip32_path` and
-- `decoded_output` of `sign_tx_ctx_t` are never used and left out.
use hathor_ledger_app.Prelude.{Bool, ℕ, Option, List, replicate}
use hathor_ledger_app.Bip32.{Bip32Path, zero_path}
use hathor_ledger_app.Deserialize.{TxOutput}
use hathor_ledger_app.Sdk.{Sdk}
use hathor_ledger_app.Token.{Token, zero_token, TokenData, tx_max_tokens}

-- `state_e`
pub data State : Type 0 where
  state_none state_recv_data state_parsed state_approved : State

-- `request_type_e`
pub data RequestType : Type 0 where
  confirm_address confirm_xpub confirm_transaction : RequestType

-- `change_output_info_t`
pub record ChangeOutputInfo : Type 0 where
  pub index : ℕ
  pub path : Bip32Path

unfoldable pub zero_change : ChangeOutputInfo
zero_change = record { index = 0; path = zero_path }

unfoldable pub zero_output : TxOutput
zero_output = record { index = 0; value = 0; token_data = 0; pubkey_hash = replicate 20 0 }

-- `xpub_ctx_t`
pub record PkInfo : Type 0 where
  pub raw_public_key : List ℕ
  pub chain_code : List ℕ
  pub fingerprint : List ℕ

unfoldable pub zero_pk_info : PkInfo
zero_pk_info = record {
  raw_public_key = replicate 65 0;
  chain_code = replicate 32 0;
  fingerprint = replicate 4 0;
}

abbrev pub buffer_cap : ℕ
buffer_cap = 300

abbrev pub outputs_cap : ℕ
outputs_cap = 10

-- `sign_tx_ctx_t`. An element of `tokens` is a pointer into the registry: the index of the entry.
pub record TxInfo (H : Type 0) : Type 0 where
  pub buffer : List ℕ
  pub buffer_len : ℕ
  pub sha256 : H
  pub sighash_all : List ℕ
  pub change_len : ℕ
  pub change_info : List ChangeOutputInfo
  pub tx_version : ℕ
  pub remaining_tokens : ℕ
  pub remaining_inputs : ℕ
  pub outputs_len : ℕ
  pub current_output : ℕ
  pub display_index : ℕ
  pub confirmed_outputs : ℕ
  pub buffer_output_len : ℕ
  pub outputs : List TxOutput
  pub tokens : List ℕ
  pub tokens_len : ℕ

unfoldable pub zero_tx_info : {H : Type 0} → Sdk H → TxInfo H
zero_tx_info sdk = record {
  buffer = replicate buffer_cap 0;
  buffer_len = 0;
  sha256 = sdk.cleared;
  sighash_all = replicate 32 0;
  change_len = 0;
  change_info = replicate 11 zero_change;
  tx_version = 0;
  remaining_tokens = 0;
  remaining_inputs = 0;
  outputs_len = 0;
  current_output = 0;
  display_index = 0;
  confirmed_outputs = 0;
  buffer_output_len = 0;
  outputs = replicate outputs_cap zero_output;
  tokens = replicate tx_max_tokens 0;
  tokens_len = 0;
}

-- `global_ctx_t`
pub record GlobalCtx (H : Type 0) : Type 0 where
  pub state : State
  pub pk_info : PkInfo
  pub tx_info : TxInfo H
  pub req_type : RequestType
  pub bip32_path : Bip32Path
  pub token : Token

-- What `explicit_bzero(&G_context, sizeof(G_context))` leaves.
abbrev pub zero_ctx : {H : Type 0} → Sdk H → GlobalCtx H
zero_ctx sdk = record {
  state = state_none;
  pk_info = zero_pk_info;
  tx_info = zero_tx_info sdk;
  req_type = confirm_address;
  bip32_path = zero_path;
  token = zero_token;
}

-- `io_state_e`
pub data IoState : Type 0 where
  ready received waiting : IoState

-- The functions that `g_validate_callback` holds.
pub data Callback : Type 0 where
  action_confirm_xpub action_confirm_address action_sign_token_data action_tx_confirm confirm_output
        confirm_reset_token_signatures :
      Callback

-- The argument of the last `ux_flow_init`.
pub data Flow : Type 0 where
  menu_main menu_about display_processing display_confirm_tx display_tx_output display_xpub
        display_address display_reset_token_signatures display_sign_token_data :
      Flow

-- What the screens show: the static strings of src/ui/display.c.
pub record Screen : Type 0 where
  pub output_index : List ℕ
  pub address : List ℕ
  pub amount : List ℕ
  pub token_symbol : List ℕ
  pub token_name : List ℕ
  pub token_uid : List ℕ

-- The globals. `asynch_reply` is where `io_recv_command` waits: in the exchange with the flag
-- IO_ASYNCH_REPLY, behind which it sets RECEIVED, or in the other one. `output` is the first `G_output_len` bytes of `G_io_apdu_buffer`, the response to
-- send.
pub record App (H : Type 0) : Type 0 where
  pub ctx : GlobalCtx H
  pub symbols : TokenData
  pub io_state : IoState
  pub output : List ℕ
  pub callback : Option Callback
  pub flow : Flow
  pub screen : Screen
  pub secret : List ℕ
  pub rng_calls : ℕ
  pub asynch_reply : Bool

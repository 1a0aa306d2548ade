-- ===== src/Tests.antt =====
-- Concrete runs: an SDK of simple functions, and the states that the tests start from.
mod Run
mod Decode
mod Parse
mod Text
mod Base58
mod Token
mod Review
mod Shown
mod Stream
mod Change
mod Unseen
use hathor_ledger_app.Prelude.{
  false, ℕ, ◌%◌, Option, none, some, List, [], ◌∷◌, ◌++◌, take, replicate,
}
use hathor_ledger_app.Sdk.{Sdk}
use hathor_ledger_app.Token.{zero_token_data}
use hathor_ledger_app.App.{App, TxInfo, zero_ctx, ready, menu_main, zero_tx_info}

-- A hash context is the list of the absorbed bytes.
abbrev pub test_sdk : Sdk (List ℕ)
test_sdk = record {
  cleared = [];
  sha256_init = [];
  hash_update = λ h xs. some (h ++ xs);
  hash_last = λ h xs. some (take 32 (h ++ (xs ++ replicate 32 1)), h);
  ripemd160 = λ xs. some (take 20 (xs ++ replicate 20 0));
  hash_sha256 = λ xs. take 32 (xs ++ replicate 32 0);
  derive_bip32 = λ path. some (replicate 32 7, replicate 32 8);
  init_private_key = λ key. some key;
  generate_pair = λ key. some (4 ∷ (key ++ key));
  ecdsa_sign = λ key digest. some (take 8 digest);
  rng = λ n. replicate 32 (n % 256);
  io_apdu_buffer_size = 260;
  io_exchange_tx = λ response. 0;
  exception_io_reset = 0x10;
}

-- The program before it has done anything.
abbrev pub idle : App (List ℕ)
idle = record {
  ctx = zero_ctx test_sdk;
  symbols = zero_token_data;
  io_state = ready;
  output = [];
  callback = none;
  flow = menu_main;
  screen = record {
    output_index = [];
    address = [];
    amount = [];
    token_symbol = [];
    token_name = [];
    token_uid = [];
  };
  secret = replicate 32 0;
  rng_calls = 0;
  asynch_reply = false;
}

-- An output of 3.00 HTR.
abbrev pub output_bytes : List ℕ
output_bytes =
    0 ∷ 0 ∷ 1 ∷ 44 ∷ 0 ∷ 0 ∷ 25 ∷ 0x76 ∷ 0xA9 ∷ 20 ∷ (replicate 20 9 ++ (0x88 ∷ 0xAC ∷ []))

-- An output of 3.00 HTR to the key that every path has here.
abbrev pub change_bytes : List ℕ
change_bytes =
    0 ∷ 0 ∷ 1 ∷ 44 ∷ 0 ∷ 0 ∷ 25 ∷ 0x76 ∷ 0xA9 ∷ 20 ∷ 3 ∷ (replicate 19 7 ++ (0x88 ∷ 0xAC ∷ []))

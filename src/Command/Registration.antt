-- ===== src/Command/Registration.antt =====
-- The registry of tokens under `handler_send_token_data`.
use hathor_ledger_app.Prelude.{◌≤◌, ◌≡◌, Bool, true, false, arith}
use hathor_ledger_app.Buffer.{Buffer}
use hathor_ledger_app.Sdk.{Sdk}
use hathor_ledger_app.Token.{Token, zero_token, zero_token_data, tx_max_tokens}
use hathor_ledger_app.App.{App}
use hathor_ledger_app.Io.{io_send_sw, finish_response}
use hathor_ledger_app.Storage.{check_token_signature_from_apdu, get_secret, generate_secret}
use hathor_ledger_app.Command.Tokens.{save_token, register_token, handler_send_token_data}

module _ {H : Type 0} (sdk : Sdk H) where
  symbols-check_signature :
      (b : Buffer) (t : Token) (app : App H)
      → (check_token_signature_from_apdu sdk b t app).2.symbols ≡ app.symbols
  unfolding check_token_signature_from_apdu get_secret generate_secret
  symbols-check_signature b t app = ground arith

  register_token-len :
      (b : Buffer) (app : App H)
      → app.symbols.len ≤ tx_max_tokens
      → (register_token sdk b app).1.symbols.len ≤ tx_max_tokens
  unfolding register_token save_token zero_token_data io_send_sw finish_response
  register_token-len b app h = ground (arith, symbols-check_signature b zero_token app)

  -- A registry of at most ten tokens has at most ten after SEND_TOKEN_DATA, whatever its data are.
  pub handler_send_token_data-len :
      (first : Bool) (b : Buffer) (app : App H)
      → app.symbols.len ≤ tx_max_tokens
      → (handler_send_token_data sdk first b app).1.symbols.len ≤ tx_max_tokens
  unfolding handler_send_token_data zero_token_data
  handler_send_token_data-len true b app h = register_token-len b _ (omega arith)
  handler_send_token_data-len false b app h = register_token-len b app h

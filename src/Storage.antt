-- ===== src/Storage.antt =====
-- src/storage.c and `check_token_signature_from_apdu` of src/token/signature.c: the device's
-- secret.
pub mod Signed
use hathor_ledger_app.Prelude.{
  ℕ, suc, Bool, true, not, ◌&&◌, List, [], ◌∷◌, take, replicate, ◌==◌, if◌then◌else◌,
}
use hathor_ledger_app.Buffer.{Buffer, buffer_read_bytes}
use hathor_ledger_app.Sdk.{Sdk}
use hathor_ledger_app.Token.{Token, parse_token, verify_token_signature, secret_len}
use hathor_ledger_app.App.{App}

-- The loop of `get_secret` finds no byte that is not 0.
unfoldable pub all_zero : List ℕ → Bool
all_zero [] = true
all_zero (x ∷ xs) = x == 0 && all_zero xs

module _ {H : Type 0} (sdk : Sdk H) where
  unfoldable pub generate_secret : App H → App H
  generate_secret app = record app {
    secret = take secret_len (sdk.rng app.rng_calls);
    rng_calls = suc app.rng_calls;
  }

  -- The secret and the state; the first access generates it.
  unfoldable pub get_secret : App H → List ℕ × App H
  get_secret app =
      let app' = if all_zero (take secret_len app.secret) then generate_secret app else app in
      (take secret_len app'.secret, app')

  -- The result (0 valid, 1 invalid, else an error) with `*token`.
  unfoldable pub check_token_signature_from_apdu : Buffer → Token → App H → ℕ × Token × App H
  check_token_signature_from_apdu b token app =
      let (parsed, token', b1) = parse_token b token in
      let (read, signature, _) = buffer_read_bytes b1 (replicate 32 0) 32 32 in
      let (secret, app') = get_secret app in
      if not parsed
      then (3, token', app)
      else if not read
      then (4, token', app)
      else (verify_token_signature sdk secret token' signature, token', app')

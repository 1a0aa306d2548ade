-- ===== src/Storage/Signed.antt =====
-- `check_token_signature_from_apdu` of src/token/signature.c on a token that the device has signed.
use hathor_ledger_app.Prelude.{
  ℕ, ◌+◌, ◌≤◌, ◌≡◌, refl, subst, ap, ◌∙◌, true, List, ◌++◌, replicate, length, All, arith,
}
use hathor_ledger_app.Buffer.{Buffer, buffer_read_bytes, copy_to}
use hathor_ledger_app.Buffer.Unread.{Unread, read_bytes_next}
use hathor_ledger_app.Sdk.{Sdk}
use hathor_ledger_app.App.{App}
use hathor_ledger_app.Token.{zero_token, sign_token}
use hathor_ledger_app.Token.Signature.{token_of, verify_token_signature-sign_token}
use hathor_ledger_app.Token.Wire.{
  token_bytes, IsPrintable, token_end, parse_token-token_bytes, filled,
}
use hathor_ledger_app.Storage.{get_secret, check_token_signature_from_apdu}

module _ {H : Type 0} (sdk : Sdk H) where
  -- A token with printable texts, followed by the signature that the device makes of it, is
  -- accepted and read back, where the texts fit the arrays of the token and the hash gives 32
  -- bytes.
  pub check_token_signature_from_apdu-sign_token :
      (app : App H) (b : Buffer) (uid symbol name rest : List ℕ) (version : ℕ)
      → Unread b (
          token_bytes uid symbol name version
            (sign_token sdk (get_secret sdk app).0 (token_of uid symbol name version) ++ rest))
      → length uid ≡ 32
      → length symbol ≤ 5
      → length name ≤ 30
      → All IsPrintable symbol
      → All IsPrintable name
      → length (sign_token sdk (get_secret sdk app).0 (token_of uid symbol name version)) ≡ 32
      → check_token_signature_from_apdu sdk b zero_token app
        ≡ (0, token_of uid symbol name version, (get_secret sdk app).1)
  unfolding check_token_signature_from_apdu
  check_token_signature_from_apdu-sign_token app b uid symbol name rest version u uid_fits
        symbol_fits name_fits ps pn size =
      let token = token_of uid symbol name version in
      let signature = sign_token sdk (get_secret sdk app).0 token in
      let (parsed, left) =
        parse_token-token_bytes b uid symbol name (signature ++ rest) version u uid_fits symbol_fits
          name_fits ps pn in
      let end =
        token_end b uid symbol name (signature ++ rest) version u uid_fits symbol_fits name_fits in
      let read : buffer_read_bytes end (replicate 32 0) 32 32
          ≡ (true, signature, record end { offset = end.offset + 32 }) =
        subst
          (λ n.
            buffer_read_bytes end (replicate 32 0) 32 n
            ≡ (true, copy_to signature (replicate 32 0), record end { offset = end.offset + n }))
          size (read_bytes_next end signature rest (replicate 32 0) 32 left (omega arith)).0
        ∙ ap (λ s. (true, s, record end { offset = end.offset + 32 })) (filled signature 32 size) in
      rw (parsed, read, verify_token_signature-sign_token sdk (get_secret sdk app).0 token) refl

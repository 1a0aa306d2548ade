-- ===== src/Token/Signature.antt =====
-- src/token/signature.c: which tokens a signature is valid for.
use hathor_ledger_app.Prelude.{
  ℕ, ◌-◌, ◌≡◌, refl, sym, ap, ap₂, ◌∙◌, true, List, [], ◌∷◌, ◌++◌, append_assoc, take, take-append,
  replicate, length, arith,
}
use hathor_ledger_app.Deserialize.{mem_eq}
use hathor_ledger_app.Sdk.{Sdk}
use hathor_ledger_app.Token.{
  Token, max_token_symbol_len, max_token_name_len, init_token_signature_message, sign_token,
  verify_token_signature,
}

-- The token that `parse_token` makes of a uid, two texts and a version.
abbrev pub token_of : List ℕ → List ℕ → List ℕ → ℕ → Token
token_of uid symbol name version = record {
  uid = uid;
  symbol_len = length symbol;
  symbol = symbol ++ replicate (max_token_symbol_len - length symbol) 0;
  name_len = length name;
  name = name ++ replicate (max_token_name_len - length name) 0;
  version = version;
}

mem_eq-same : (xs : List ℕ) → mem_eq xs xs ≡ true
unfolding mem_eq
mem_eq-same [] = refl
mem_eq-same (x ∷ xs) = ground (arith, mem_eq-same xs)

module _ (secret uid : List ℕ) (version : ℕ) where
  message : List ℕ → List ℕ → List ℕ
  message symbol name = init_token_signature_message secret (token_of uid symbol name version)

  texts : List ℕ → List ℕ → List ℕ
  texts symbol name = symbol ++ (name ++ (version ∷ []))

  message-texts :
      (symbol name : List ℕ)
      → message symbol name ≡ take 32 secret ++ (take 32 uid ++ texts symbol name)
  unfolding init_token_signature_message message texts
  message-texts symbol name =
      ap₂ (λ s n. take 32 secret ++ (take 32 uid ++ (s ++ (n ++ (version ∷ [])))))
        (take-append symbol (replicate (max_token_symbol_len - length symbol) 0))
        (take-append name (replicate (max_token_name_len - length name) 0))

  message-moved : (x y z : List ℕ) → message (x ++ y) z ≡ message x (y ++ z)
  unfolding texts
  message-moved x y z =
      message-texts (x ++ y) z
      ∙ ap (λ t. take 32 secret ++ (take 32 uid ++ t))
          (append_assoc x y (z ++ (version ∷ []))
            ∙ ap (λ t. x ++ t) (sym (append_assoc y z (version ∷ []))))
      ∙ sym (message-texts x (y ++ z))

module _ {H : Type 0} (sdk : Sdk H) where
  -- A signature of a token is valid for that token.
  pub verify_token_signature-sign_token :
      (secret : List ℕ) (token : Token)
      → verify_token_signature sdk secret token (sign_token sdk secret token) ≡ 0
  unfolding verify_token_signature
  verify_token_signature-sign_token secret token =
      rw (mem_eq-same (take 32 (sign_token sdk secret token))) refl

  -- A signature of a token is also valid for the token with the same uid and version in which the
  -- last characters of the symbol have moved to the front of the name.
  pub verify_token_signature_moved :
      (secret uid x y z : List ℕ) (version : ℕ)
      → verify_token_signature sdk secret
          (token_of uid x (y ++ z) version)
          (sign_token sdk secret (token_of uid (x ++ y) z version))
        ≡ 0
  unfolding sign_token message
  verify_token_signature_moved secret uid x y z version =
      ap
        (λ m.
          verify_token_signature sdk secret (token_of uid x (y ++ z) version) (sdk.hash_sha256 m))
        (message-moved secret uid version x y z)
      ∙ verify_token_signature-sign_token secret (token_of uid x (y ++ z) version)

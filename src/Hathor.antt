-- ===== src/Hathor.antt =====
-- src/hathor.c: hashes, addresses and keys. An error code is `none`; the tests for NULL and for the
-- lengths of fixed arrays hold at every call and are not modelled.
use hathor_ledger_app.Prelude.{
  ℕ, bit_and, Option, none, some, List, ◌∷◌, ◌++◌, set, take, ◌==◌, if◌then◌else◌, not,
}
use hathor_ledger_app.Bytes.{at}
use hathor_ledger_app.Sdk.{Sdk}

infixl 5 ◌>>=◌
abbrev pub ◌>>=◌ {ℓ κ} : {A : Type ℓ} {B : Type κ} → Option A → (A → Option B) → Option B
none >>= f = none
some a >>= f = f a

abbrev pub p2pkh_version_byte : ℕ
p2pkh_version_byte = 0x28

unfoldable pub compress_public_key : List ℕ → List ℕ
compress_public_key value = set value 0 (if not (bit_and (at value 64) 1 == 0) then 0x03 else 0x02)

module _ {H : Type 0} (sdk : Sdk H) where
  unfoldable pub sha256d : List ℕ → Option (List ℕ)
  sha256d input = do
    (first, _) ← sdk.hash_last sdk.sha256_init input
    (second, _) ← sdk.hash_last sdk.sha256_init first
    some second

  unfoldable pub hash160 : List ℕ → Option (List ℕ)
  hash160 input = do (digest, _) ← sdk.hash_last sdk.sha256_init input; sdk.ripemd160 digest

  unfoldable pub address_from_pubkey_hash : List ℕ → Option (List ℕ)
  address_from_pubkey_hash hash = do
    let versioned = p2pkh_version_byte ∷ take 20 hash
    checksum ← sha256d versioned
    some (versioned ++ take 4 checksum)

  unfoldable pub address_from_pubkey : List ℕ → Option (List ℕ)
  address_from_pubkey public_key = do
    hash ← hash160 (take 33 (compress_public_key public_key))
    address_from_pubkey_hash hash

  -- The private key and the chain code.
  unfoldable pub derive_private_key : List ℕ → ℕ → Option (List ℕ × List ℕ)
  derive_private_key path depth = do
    (raw, chain_code) ← sdk.derive_bip32 (take depth path)
    private_key ← sdk.init_private_key (take 32 raw)
    some (private_key, chain_code)

  unfoldable pub init_public_key : List ℕ → Option (List ℕ)
  init_public_key private_key = sdk.generate_pair private_key

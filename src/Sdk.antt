-- ===== src/Sdk.antt =====
-- What the program takes from the Ledger SDK (outside this repository): hashing, key derivation and
-- signing. `H` is the type of a SHA-256 context. `none` is an error code other than CX_OK. The
-- functions are arbitrary; a theorem that needs a fact about one has it as a hypothesis.
use hathor_ledger_app.Prelude.{ℕ, Option, List}

pub record Sdk (H : Type 0) : Type 0 where
  -- the context whose bytes are all 0
  pub cleared : H
  -- cx_sha256_init
  pub sha256_init : H
  -- cx_hash_no_throw with mode 0: absorbs bytes
  pub hash_update : H → List ℕ → Option H
  -- cx_hash_no_throw with CX_LAST: absorbs bytes and gives the digest
  pub hash_last : H → List ℕ → Option (List ℕ × H)
  -- cx_ripemd160_init and cx_hash_no_throw with CX_LAST
  pub ripemd160 : List ℕ → Option (List ℕ)
  -- cx_hash_sha256
  pub hash_sha256 : List ℕ → List ℕ
  -- os_derive_bip32_with_seed_no_throw: the raw key and the chain code
  pub derive_bip32 : List ℕ → Option (List ℕ × List ℕ)
  -- cx_ecfp_init_private_key_no_throw
  pub init_private_key : List ℕ → Option (List ℕ)
  -- cx_ecfp_generate_pair_no_throw: the 65 bytes of the public key
  pub generate_pair : List ℕ → Option (List ℕ)
  -- cx_ecdsa_sign_no_throw with CX_LAST | CX_RND_RFC6979: the signature
  pub ecdsa_sign : List ℕ → List ℕ → Option (List ℕ)
  -- the bytes of the n-th call of cx_rng_no_throw
  pub rng : ℕ → List ℕ
  -- IO_APDU_BUFFER_SIZE, the size of G_io_apdu_buffer
  pub io_apdu_buffer_size : ℕ
  -- io_exchange with IO_RETURN_AFTER_TX on a response
  pub io_exchange_tx : List ℕ → ℕ
  -- EXCEPTION_IO_RESET, thrown when the USB cable is unplugged
  pub exception_io_reset : ℕ

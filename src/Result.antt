-- ===== src/Result.antt =====
-- Exceptions of the SDK (`THROW`, `TRY`, `CATCH`), and the status words of src/sw.h that are thrown
-- and sent.
use hathor_ledger_app.Prelude.{ℕ, Bool, true, false}

-- `throw e` is `THROW(e)`. `fault` is a write or a read outside an array, where C gives no
-- meaning to the rest.
pub data Result {ℓ} (A : Type ℓ) : Type ℓ where
  ok : A → Result A
  throw : ℕ → Result A
  fault : Result A

infixl 5 ◌>>=◌ ◌>>◌
abbrev pub ◌>>=◌ {ℓ κ} : {A : Type ℓ} {B : Type κ} → Result A → (A → Result B) → Result B
ok a >>= f = f a
throw e >>= f = throw e
fault >>= f = fault

abbrev pub ◌>>◌ {ℓ} : {B : Type ℓ} → Result (Unit {0}) → Result B → Result B
m >> k = m >>= λ _. k

-- if (!b) THROW(e)
abbrev pub require : Bool → ℕ → Result (Unit {0})
require true e = ok tt
require false e = throw e

abbrev pub sw_ok : ℕ
sw_ok = 0x9000

abbrev pub sw_deny : ℕ
sw_deny = 0x6985

abbrev pub sw_wrong_p1p2 : ℕ
sw_wrong_p1p2 = 0x6A86

abbrev pub sw_wrong_data_length : ℕ
sw_wrong_data_length = 0x6A87

abbrev pub sw_ins_not_supported : ℕ
sw_ins_not_supported = 0x6D00

abbrev pub sw_cla_not_supported : ℕ
sw_cla_not_supported = 0x6E00

abbrev pub sw_wrong_response_length : ℕ
sw_wrong_response_length = 0xB000

abbrev pub sw_tx_parsing_fail : ℕ
sw_tx_parsing_fail = 0xB005

abbrev pub sw_bad_state : ℕ
sw_bad_state = 0xB007

abbrev pub sw_signature_fail : ℕ
sw_signature_fail = 0xB008

abbrev pub sw_invalid_tx : ℕ
sw_invalid_tx = 0xB009

abbrev pub sw_invalid_signature : ℕ
sw_invalid_signature = 0xB00A

abbrev pub sw_internal_error : ℕ
sw_internal_error = 0xB00B

-- `tx_decoder_state_e`, thrown by the decoder.
abbrev pub tx_state_err : ℕ
tx_state_err = 1

abbrev pub tx_state_ready : ℕ
tx_state_ready = 2

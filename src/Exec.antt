-- ===== src/Exec.antt =====
-- A function that may throw, on the state of the program. What it wrote before it threw stays
-- written.
use hathor_ledger_app.Prelude.{ℕ}
use hathor_ledger_app.Result.{Result, ok, throw, fault}

abbrev pub Exec {ℓ} : Type ℓ → Type ℓ → Type ℓ
Exec S A = S → Result A × S

abbrev pub continue {ℓ} : {S A B : Type ℓ} → Result A → (A → Exec S B) → Exec S B
continue (ok a) f s = f a s
continue (throw e) f s = (throw e, s)
continue fault f s = (fault, s)

infixl 5 ◌>>=◌ ◌>>◌
abbrev pub ◌>>=◌ {ℓ} : {S A B : Type ℓ} → Exec S A → (A → Exec S B) → Exec S B
◌>>=◌ m f s = let (r, s') = m s in continue r f s'

abbrev pub ◌>>◌ {ℓ} : {S B : Type ℓ} → Exec S (Unit {ℓ}) → Exec S B → Exec S B
m >> n = m >>= λ _. n

abbrev pub pure {ℓ} : {S A : Type ℓ} → A → Exec S A
pure a s = (ok a, s)

abbrev pub raise {ℓ} : {S A : Type ℓ} → ℕ → Exec S A
raise e s = (throw e, s)

-- A change of the state that cannot fail.
abbrev pub modify {ℓ} : {S : Type ℓ} → (S → S) → Exec S (Unit {ℓ})
modify f s = (ok tt, f s)

-- The result and the state of a function that throws nothing.
abbrev pub returns {ℓ} : {S A : Type ℓ} → A × S → Result A × S
returns (a, s) = (ok a, s)

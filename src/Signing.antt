-- ===== src/Signing.antt =====
-- The signature of a transaction: when it is given, and over which digest.
mod Feed
use hathor_ledger_app.Prelude.{ℕ, refl, List, []}
use hathor_ledger_app.Sdk.{Sdk}

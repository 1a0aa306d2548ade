-- ===== src/Io/Frame.antt =====
-- Sending a response leaves everything but the output and the state of the channel as it was.
use hathor_ledger_app.Prelude.{ℕ, ◌≡◌, arith}
use hathor_ledger_app.Buffer.{Buffer}
use hathor_ledger_app.Sdk.{Sdk}
use hathor_ledger_app.App.{App}
use hathor_ledger_app.Io.{finish_response, io_send_sw, io_send_response}

module _ {H : Type 0} (sdk : Sdk H) where
  ctx-finish_response : (app : App H) → (finish_response sdk app).1.ctx ≡ app.ctx
  unfolding finish_response
  ctx-finish_response app = ground arith

  pub ctx-io_send_sw : (sw : ℕ) (app : App H) → (io_send_sw sdk sw app).1.ctx ≡ app.ctx
  unfolding io_send_sw finish_response
  ctx-io_send_sw sw app = ground arith

  pub ctx-io_send_response :
      (b : Buffer) (sw : ℕ) (app : App H) → (io_send_response sdk b sw app).1.ctx ≡ app.ctx
  unfolding io_send_response io_send_sw finish_response
  ctx-io_send_response b sw app = ground arith

  pub symbols-io_send_sw : (sw : ℕ) (app : App H) → (io_send_sw sdk sw app).1.symbols ≡ app.symbols
  unfolding io_send_sw finish_response
  symbols-io_send_sw sw app = ground arith

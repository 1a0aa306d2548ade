-- ===== src/Io.antt =====
-- src/io.c: the response of a command. `G_io_apdu_buffer` is modelled by what will be sent of it.
pub mod Frame
pub mod Event
use hathor_ledger_app.Prelude.{
  ℕ, ◌+◌, ◌-◌, ◌||◌, Bool, true, false, Option, none, some, List, [], ◌∷◌, ◌++◌, take, drop, length,
  replicate, ltb, if◌then◌else◌,
}
use hathor_ledger_app.Bytes.{write_u16_be}
use hathor_ledger_app.Buffer.{Buffer, sub_size, buffer_copy}
use hathor_ledger_app.Result.{sw_wrong_response_length}
use hathor_ledger_app.Sdk.{Sdk}
use hathor_ledger_app.App.{App, IoState, ready, received, waiting}

-- The `int` results: -1, or a number from 0 on.
pub data Ret : Type 0 where
  minus_one : Ret
  code : ℕ → Ret

abbrev pub is_positive : Ret → Bool
is_positive minus_one = false
is_positive (code n) = ltb 0 n

abbrev pub is_not_negative : Ret → Bool
is_not_negative minus_one = false
is_not_negative (code n) = true

abbrev pub zero_or_minus_one : Bool → Ret
zero_or_minus_one true = code 0
zero_or_minus_one false = minus_one

-- sizeof(G_io_apdu_buffer) is IO_APDU_BUFFER_SIZE, a constant of the SDK.
module _ {H : Type 0} (sdk : Sdk H) where
  -- The switch on `G_io_state` at the end of `io_send_response`.
  unfoldable pub finish_response : App H → Ret × App H
  finish_response app = elim app.io_state [
    | ready ↦ (minus_one, app)
    | received ↦ (code 0, record app { io_state = ready })
    | waiting ↦ (code (sdk.io_exchange_tx app.output), record app { io_state = ready })
  ]

  -- write_u16_be(G_io_apdu_buffer, G_output_len, sw), after `bytes`.
  unfoldable pub with_sw : List ℕ → ℕ → List ℕ
  unfolding write_u16_be
  with_sw bytes sw = write_u16_be (bytes ++ replicate 2 0) (length bytes) sw

  unfoldable pub io_send_sw : ℕ → App H → Ret × App H
  io_send_sw sw app = finish_response (record app { output = with_sw [] sw })

  unfoldable pub io_send_response : Buffer → ℕ → App H → Ret × App H
  io_send_response rdata sw app =
      if ltb (sdk.io_apdu_buffer_size - 2) (sub_size rdata.size rdata.offset) || not_copied
      then io_send_sw sw_wrong_response_length app
      else finish_response (record app {
        output = with_sw (take (sub_size rdata.size rdata.offset) (drop rdata.offset rdata.ptr)) sw;
      })
    where
      not_copied : Bool
      not_copied = ltb sdk.io_apdu_buffer_size (sub_size rdata.size rdata.offset)

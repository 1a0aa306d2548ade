-- ===== src/Io/Event.antt =====
-- src/io.c: the events that the secure element's proxy reports, and the exchange on a channel.
use hathor_ledger_app.Prelude.{
  ℕ, ◌-◌, ◌≡◌, ◌≢◌, ◌⊎◌, refl, inl, inr, bit_and, Bool, true, false, not, ◌&&◌, List, ◌==◌,
  if◌then◌else◌, arith, Bool-cases,
}
use hathor_ledger_app.Bytes.{at, read_u32_be}
use hathor_ledger_app.Result.{Result, ok, throw}
use hathor_ledger_app.Sdk.{Sdk}

-- Constants of the SDK: the tags of the events, the flag of the power in a status event, the medium
-- USB, the channels and their flags, and INVALID_PARAMETER.
pub record Seproxyhal : Type 0 where
  pub button_push_event : ℕ
  pub status_event : ℕ
  pub display_processed_event : ℕ
  pub ticker_event : ℕ
  pub usb_powered : ℕ
  pub media_usb_hid : ℕ
  pub io_flags : ℕ
  pub channel_keyboard : ℕ
  pub channel_spi : ℕ
  pub reset_after_replied : ℕ
  pub invalid_parameter : ℕ

-- The macro of the SDK that takes the event.
pub data UxEvent : Type 0 where
  ux_button_push ux_displayed ux_ticker ux_default : UxEvent

-- What `io_exchange_al` does: nothing, send the response (and halt), or receive a command.
pub data Exchange : Type 0 where
  no_exchange : Exchange
  spi_send : ℕ → Bool → Exchange
  spi_recv : Exchange

module _ (hal : Seproxyhal) where
  -- A status event that says that the USB cable gives no power.
  abbrev pub usb_unplugged : List ℕ → ℕ → Bool
  usb_unplugged buffer media =
      media == hal.media_usb_hid && bit_and (read_u32_be buffer 3) hal.usb_powered == 0

  -- The macro that is called, and whether the general status is sent behind it. `buffer` is
  -- G_io_seproxyhal_spi_buffer, `media` is G_io_apdu_media, and `status_sent` the answer of
  -- io_seproxyhal_spi_is_status_sent.
  unfoldable pub io_event : {H : Type 0} → Sdk H → List ℕ → ℕ → Bool → Result (UxEvent × Bool)
  io_event sdk buffer media status_sent =
      if at buffer 0 == hal.button_push_event
      then ok (ux_button_push, not status_sent)
      else if at buffer 0 == hal.status_event
      then (if usb_unplugged buffer media
          then throw sdk.exception_io_reset
          else ok (ux_displayed, not status_sent))
      else if at buffer 0 == hal.display_processed_event
      then ok (ux_displayed, not status_sent)
      else if at buffer 0 == hal.ticker_event
      then ok (ux_ticker, not status_sent)
      else ok (ux_default, not status_sent)

  -- `channel` is a byte.
  unfoldable pub io_exchange_al : ℕ → ℕ → Result Exchange
  io_exchange_al channel tx_len =
      let kind = bit_and channel (255 - hal.io_flags) in
      if kind == hal.channel_keyboard
      then ok no_exchange
      else if kind == hal.channel_spi
      then (if tx_len == 0
          then ok spi_recv
          else ok (spi_send tx_len (not (bit_and channel hal.reset_after_replied == 0))))
      else throw hal.invalid_parameter

  other_event :
      {H : Type 0} (sdk : Sdk H) (buffer : List ℕ) (media : ℕ) (status_sent : Bool)
      → at buffer 0 == hal.status_event ≡ false
      → (event : UxEvent) × (io_event sdk buffer media status_sent ≡ ok (event, not status_sent))
  unfolding io_event
  other_event sdk buffer media status_sent other =
      elim (Bool-cases (at buffer 0 == hal.button_push_event)) [
        | inl button ↦ (ux_button_push, rw button refl)
        | inr no_button ↦ elim (Bool-cases (at buffer 0 == hal.display_processed_event)) [
          | inl displayed ↦ (ux_displayed, rw (no_button, other, displayed) refl)
          | inr not_displayed ↦ elim (Bool-cases (at buffer 0 == hal.ticker_event)) [
            | inl ticker ↦ (ux_ticker, rw (no_button, other, not_displayed, ticker) refl)
            | inr no_ticker ↦ (ux_default, rw (no_button, other, not_displayed, no_ticker) refl)
          ]
        ]
      ]

  -- Where a status event is no button event: `io_event` throws the reset exactly for a status event
  -- that says that the USB cable gives no power. After any other event one of the macros has run, and
  -- the general status is sent exactly if no status was sent.
  io_event-reset :
      {H : Type 0} (sdk : Sdk H) (buffer : List ℕ) (media : ℕ) (status_sent : Bool)
      → hal.status_event ≢ hal.button_push_event
      → ((at buffer 0 ≡ hal.status_event)
          × (usb_unplugged buffer media ≡ true)
          × (io_event sdk buffer media status_sent ≡ throw sdk.exception_io_reset))
        ⊎ (((at buffer 0 ≢ hal.status_event) ⊎ (usb_unplugged buffer media ≡ false))
            × (event : UxEvent) × (io_event sdk buffer media status_sent
                ≡ ok (event, not status_sent)))
  unfolding io_event
  io_event-reset sdk buffer media status_sent distinct =
      elim (Bool-cases (at buffer 0 == hal.status_event)) [
        | inl status ↦ elim (Bool-cases (usb_unplugged buffer media)) [
          | inl lost ↦ inl (ground arith, lost, ground arith)
          | inr powered ↦ inr (inr powered, ux_displayed, ground arith)
        ]
        | inr other ↦
            let another : at buffer 0 ≢ hal.status_event = λ e. ground arith in
            let (event, handled) = other_event sdk buffer media status_sent other in
            inr (inl another, event, handled)
      ]

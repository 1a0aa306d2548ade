-- ===== src/Tests/Token.antt =====
-- Signed tokens on concrete texts.
use hathor_ledger_app.Prelude.{
  ℕ, ◌≡◌, refl, List, [], ◌∷◌, ◌++◌, some, take, replicate, length, arith,
}
use hathor_ledger_app.Buffer.{
  Buffer, buffer_read_u8, buffer_can_read, buffer_seek_cur, buffer_read_bytes,
}
use hathor_ledger_app.App.{App, display_sign_token_data, action_sign_token_data}
use hathor_ledger_app.Io.{io_send_sw, finish_response, with_sw}
use hathor_ledger_app.Display.Render.{c_string}
use hathor_ledger_app.Command.Tokens.{handler_sign_token_data, ui_display_sign_token_data}
use hathor_ledger_app.Format.{codes}
use hathor_ledger_app.Token.{
  parse_token, parse_token_texts, is_printable, Token, zero_token, init_token_signature_message,
  sign_token, verify_token_signature,
}
use hathor_ledger_app.Token.Signature.{token_of, verify_token_signature_moved}
use hathor_ledger_app.Token.Wire.{token_bytes}
use hathor_ledger_app.Storage.{
  all_zero, generate_secret, get_secret, check_token_signature_from_apdu,
}
use hathor_ledger_app.Storage.Signed.{check_token_signature_from_apdu-sign_token}
use hathor_ledger_app.Tests.{test_sdk, idle}

abbrev uid : List ℕ
uid = replicate 32 5

verify_token_signature_moved_example :
    verify_token_signature test_sdk
      (replicate 32 1)
      (token_of uid (codes "AB") (codes "Coin") 1)
      (sign_token test_sdk (replicate 32 1) (token_of uid (codes "ABC") (codes "oin") 1))
    ≡ 0
verify_token_signature_moved_example =
    verify_token_signature_moved test_sdk (replicate 32 1) uid (codes "AB") (codes "C")
      (codes "oin") 1

abbrev coin : Token
coin = token_of uid (codes "ABC") (codes "Coin") 1

abbrev sent : Buffer
sent =
    let bytes =
      token_bytes uid (codes "ABC") (codes "Coin") 1
        (sign_token test_sdk (get_secret test_sdk idle).0 coin ++ []) in
    record { ptr = bytes; size = length bytes; offset = 0 }

check_token_signature_from_apdu-sign_token_example :
    check_token_signature_from_apdu test_sdk sent zero_token idle
    ≡ (0, coin, (get_secret test_sdk idle).1)
unfolding sign_token init_token_signature_message get_secret all_zero generate_secret
check_token_signature_from_apdu-sign_token_example =
    check_token_signature_from_apdu-sign_token test_sdk idle sent uid (codes "ABC") (codes "Coin")
      [] 1 (record { whole = refl; small = omega arith; within = omega arith; rest = refl }) refl
      (omega arith) (omega arith)
      ((omega arith, omega arith), ((omega arith, omega arith), ((omega arith, omega arith), tt)))
      (
        (omega arith, omega arith),
        (
          (omega arith, omega arith),
          ((omega arith, omega arith), ((omega arith, omega arith), tt)),
        ),
      )
      refl

-- SIGN_TOKEN_DATA for the symbol AAA, and one for BBB that ends behind the symbol.
abbrev whole_token : List ℕ
whole_token = 1 ∷ (uid ++ (3 ∷ (codes "AAA" ++ (1 ∷ codes "n"))))

abbrev cut_token : List ℕ
cut_token = 1 ∷ (uid ++ (3 ∷ codes "BBB"))

abbrev token_command : List ℕ → App (List ℕ) → App (List ℕ)
token_command bytes app =
    (handler_sign_token_data test_sdk (record { ptr = bytes; size = length bytes; offset = 0 })
      app).1

abbrev after_both : App (List ℕ)
after_both = token_command cut_token (token_command whole_token idle)

-- The second command is refused, the screen still shows the first token, and the token that its button
-- signs has the symbol of the second.
screen_of_refused_token :
    (after_both.flow ≡ display_sign_token_data)
    × (after_both.callback ≡ some action_sign_token_data)
    × (after_both.screen.token_symbol ≡ codes "AAA")
    × (take 3 after_both.ctx.token.symbol ≡ codes "BBB")
unfolding handler_sign_token_data ui_display_sign_token_data parse_token parse_token_texts
    is_printable buffer_read_u8 buffer_can_read buffer_seek_cur buffer_read_bytes c_string
    zero_token io_send_sw finish_response with_sw
screen_of_refused_token = (refl, refl, refl, refl)

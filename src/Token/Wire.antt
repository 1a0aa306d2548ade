-- ===== src/Token/Wire.antt =====
-- How a token is sent: `parse_token` of src/token/token_parser.c reads what a host writes.
use hathor_ledger_app.Prelude.{
  drop-replicate, ℕ, ◌+◌, ◌-◌, ◌≤◌, ◌<◌, ◌≡◌, refl, subst, ap, ◌∙◌, true, List, [], ◌∷◌, ◌++◌,
  append-nil, replicate, length, All, arith,
}
use hathor_ledger_app.Buffer.{Buffer, buffer_read_bytes, copy_to}
use hathor_ledger_app.Buffer.Unread.{Unread, read_u8_next, read_bytes_next}
use hathor_ledger_app.Token.{zero_token, is_printable, parse_token_texts, parse_token}
use hathor_ledger_app.Token.Signature.{token_of}

-- A token as the data of a command, with what follows.
abbrev pub token_bytes : List ℕ → List ℕ → List ℕ → ℕ → List ℕ → List ℕ
token_bytes uid symbol name version rest =
    version ∷ (uid ++ (length symbol ∷ (symbol ++ (length name ∷ (name ++ rest)))))

abbrev pub IsPrintable : ℕ → Type 0
IsPrintable c = (0x20 ≤ c) × (c < 0x80)

is_printable-text :
    (cs pad : List ℕ) → All IsPrintable cs → is_printable (cs ++ pad) (length cs) ≡ true
unfolding is_printable
is_printable-text [] pad p = refl
is_printable-text (c ∷ cs) pad p = ground (arith, p.0, is_printable-text cs pad p.1)

padded : (xs : List ℕ) (n : ℕ) → copy_to xs (replicate n 0) ≡ xs ++ replicate (n - length xs) 0
padded xs n = ap (λ l. xs ++ l) (drop-replicate (length xs) n 0)

pub filled : (xs : List ℕ) (n : ℕ) → length xs ≡ n → copy_to xs (replicate n 0) ≡ xs
filled xs n e =
    let none_left : n - length xs ≡ 0 = omega arith in
    padded xs n ∙ ap (λ m. xs ++ replicate m 0) none_left ∙ append-nil xs

abbrev after : Buffer → ℕ → Buffer
after b n = record b { offset = b.offset + n }

module _ (b : Buffer) (uid symbol name rest : List ℕ) (version : ℕ)
    (u : Unread b (token_bytes uid symbol name version rest)) (uid_fits : length uid ≡ 32)
    (symbol_fits : length symbol ≤ 5) (name_fits : length name ≤ 30) where
  abbrev b1 : Buffer
  b1 = after b 1

  abbrev b2 : Buffer
  b2 = after b1 32

  abbrev b3 : Buffer
  b3 = after b2 1

  abbrev b4 : Buffer
  b4 = after b3 (length symbol)

  abbrev b5 : Buffer
  b5 = after b4 1

  abbrev pub token_end : Buffer
  token_end = after b5 (length name)

  uid_next :
      Unread b1 (uid ++ (length symbol ∷ (symbol ++ (length name ∷ (name ++ rest)))))
      → (buffer_read_bytes b1 (replicate 32 0) 32 32 ≡ (true, copy_to uid (replicate 32 0), b2))
        × Unread b2 (length symbol ∷ (symbol ++ (length name ∷ (name ++ rest))))
  uid_next v =
      subst
        (λ n.
          (buffer_read_bytes b1 (replicate 32 0) 32 n
            ≡ (true, copy_to uid (replicate 32 0), after b1 n))
          × Unread (after b1 n) (length symbol ∷ (symbol ++ (length name ∷ (name ++ rest)))))
        uid_fits (read_bytes_next b1 uid _ (replicate 32 0) 32 v (omega arith))

  pub parse_token-token_bytes :
      All IsPrintable symbol
      → All IsPrintable name
      → (parse_token b zero_token ≡ (true, token_of uid symbol name version, token_end))
        × Unread token_end rest
  unfolding parse_token parse_token_texts zero_token
  parse_token-token_bytes ps pn =
      let (e1, u1) = read_u8_next b version _ u in
      let (e2, u2) = uid_next u1 in
      let (e3, u3) = read_u8_next b2 (length symbol) _ u2 in
      let (e4, u4) = read_bytes_next b3 symbol _ (replicate 5 0) 5 u3 symbol_fits in
      let (e5, u5) = read_u8_next b4 (length name) _ u4 in
      let (e6, u6) = read_bytes_next b5 name rest (replicate 30 0) 30 u5 name_fits in
      let s = is_printable-text symbol (replicate (5 - length symbol) 0) ps in
      let n = is_printable-text name (replicate (30 - length name) 0) pn in
      (
        rw (e1, e2, e3, e4, e5, e6, filled uid 32 uid_fits, padded symbol 5, padded name 30, s, n)
            refl,
        u6,
      )

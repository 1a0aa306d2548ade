-- ===== src/SignTx/Stream/Element.antt =====
-- One element of the stream: it waits for more bytes, takes its own, or fails, whatever follows.
use Prim.{⊥, absurd}
use hathor_ledger_app.Prelude.{
  ℕ, zero, suc, ◌+◌, ◌-◌, ◌%◌, ◌^◌, ◌≤◌, ◌<◌, ◌≡◌, ◌≢◌, refl, sym, ap, ap₂, ◌∙◌, Bool, true, false,
  List, [], ◌∷◌, ◌++◌, take, drop, length, ltb, leb, set, arith, inl, inr, Bool-cases, Option-cases,
  take-append, length-append, length-drop,
}
use hathor_ledger_app.Bytes.{read_u16_be}
use hathor_ledger_app.Result.{Result, ok, throw, fault, tx_state_err, tx_state_ready}
use hathor_ledger_app.Sdk.{Sdk}
use hathor_ledger_app.Token.{TokenData, find_token_registry_index, token_uid_len, tx_max_tokens}
use hathor_ledger_app.App.{TxInfo}
use hathor_ledger_app.Deserialize.Chunks.{at-append, take-append_more}
use hathor_ledger_app.SignTx.{
  decode_element, decode_token, decode_input, more_data, shift_buffer, tx_input_len,
}
use hathor_ledger_app.SignTx.Stream.{load}

drop-append_more : (n : ℕ) (xs ys : List ℕ) → n ≤ length xs → drop n (xs ++ ys) ≡ drop n xs ++ ys
drop-append_more zero xs ys h = refl
drop-append_more (suc n) [] ys h = absurd (omega arith)
drop-append_more (suc n) (x ∷ xs) ys h = drop-append_more n xs ys (omega arith)

abbrev pub Failure : Result Bool → Type 0
Failure (ok _) = ⊥
Failure (throw e) = e ≢ tx_state_ready
Failure fault = Unit

-- What lies behind the bytes after the move.
abbrev pub left_behind : ℕ → List ℕ → List ℕ → List ℕ
left_behind n xs junk = drop (length (drop n xs)) (xs ++ junk)

module _ {H : Type 0} where
  load_same :
      (tx : TxInfo H) (buffer xs : List ℕ) (n : ℕ) (junk : List ℕ)
      → buffer ≡ xs ++ junk
      → n ≡ length xs
      → record tx { buffer = buffer; buffer_len = n } ≡ load tx xs junk
  load_same tx buffer xs n junk e l =
      ap₂ (λ (b : List ℕ) (k : ℕ). record tx { buffer = b; buffer_len = k }) e l

  pub shift_buffer-load :
      (tx : TxInfo H) (n : ℕ) (xs junk : List ℕ)
      → n ≤ length xs
      → shift_buffer (load tx xs junk) n ≡ load tx (drop n xs) (left_behind n xs junk)
  shift_buffer-load tx n xs junk h =
      let moved : take (length xs - n) (drop n (xs ++ junk)) ≡ drop n xs =
        ap (take (length xs - n)) (drop-append_more n xs junk h)
        ∙ ap (λ k. take k (drop n xs ++ junk)) (sym (length-drop n xs))
        ∙ take-append (drop n xs) junk in
      load_same tx _ (drop n xs) (length xs - n) (left_behind n xs junk)
        (ap (λ b. b ++ drop (length b) (xs ++ junk)) moved) (sym (length-drop n xs))

  pub shift_buffer-more :
      (tx : TxInfo H) (n : ℕ) (xs more junk : List ℕ)
      → n ≤ length xs
      → shift_buffer (load tx (xs ++ more) junk) n
        ≡ load tx (drop n xs ++ more) (left_behind n (xs ++ more) junk)
  shift_buffer-more tx n xs more junk h =
      shift_buffer-load tx n (xs ++ more) junk (omega (arith, length-append xs more))
      ∙ ap (λ ys. load tx ys (left_behind n (xs ++ more) junk)) (drop-append_more n xs more h)

  module _ (sdk : Sdk H) (registry : TokenData) where
    -- What an element makes of the bytes that wait, whatever lies behind them and whatever follows.
    pub data Reads (tx : TxInfo H) (xs : List ℕ) : Type 0 where
      waits :
          ((junk : List ℕ)
            → decode_element sdk registry (load tx xs junk)
              ≡ (throw tx_state_ready, load tx xs junk))
          → Reads tx xs
      takes :
          (tx' : TxInfo H) (n : ℕ)
          → 0 < n
          → n ≤ length xs
          → ((more junk : List ℕ)
              → length (xs ++ more) < 2 ^ 32
              → decode_element sdk registry (load tx (xs ++ more) junk)
                ≡ more_data (load tx' (drop n xs ++ more) (left_behind n (xs ++ more) junk)))
          → Reads tx xs
      fails :
          (r : Result Bool)
          → Failure r
          → ((more junk : List ℕ)
              → length (xs ++ more) < 2 ^ 32
              → (decode_element sdk registry (load tx (xs ++ more) junk)).0 ≡ r)
          → Reads tx xs

    long_enough :
        (n : ℕ) (xs more : List ℕ) → ltb (length xs) n ≡ false → ltb (length (xs ++ more)) n ≡ false
    long_enough n xs more h = ground (arith, length-append xs more)

    same_start :
        (n : ℕ) (xs more junk : List ℕ)
        → ltb (length xs) n ≡ false
        → take n ((xs ++ more) ++ junk) ≡ take n xs
    same_start n xs more junk h =
        take-append_more n (xs ++ more) junk (ground (arith, length-append xs more))
        ∙ take-append_more n xs more (ground arith)

    pub token_Reads : (tx : TxInfo H) (xs : List ℕ) → ltb 0 tx.remaining_tokens ≡ true → Reads tx xs
    unfolding decode_element decode_token
    token_Reads tx xs t = elim (Bool-cases (ltb (length xs) token_uid_len)) [
      | inl short ↦ waits (λ junk. rw (t, short) refl)
      | inr long ↦
          let enough = λ (more : List ℕ). long_enough token_uid_len xs more long in
          let start = λ (more junk : List ℕ). same_start token_uid_len xs more junk long in
          elim (Option-cases (find_token_registry_index registry (take token_uid_len xs))) [
            | inl missing ↦
                fails (throw tx_state_err) (λ e. ground arith)
                  (λ more junk small. rw (t, enough more, start more junk, missing) refl)
            | inr (i, found) ↦ elim (Bool-cases (leb tx_max_tokens tx.tokens_len)) [
              | inl full ↦
                  fails fault tt
                    (λ more junk small. rw (t, enough more, start more junk, found, full) refl)
              | inr room ↦
                  let tx' = record tx {
                    tokens = set tx.tokens tx.tokens_len i;
                    tokens_len = (tx.tokens_len + 1) % 256;
                    remaining_tokens = tx.remaining_tokens - 1;
                  } in
                  takes tx' token_uid_len (omega arith) (ground arith) (λ more junk small.
                    rw (t, enough more, start more junk, found, room)
                      (ap more_data
                        (shift_buffer-more tx' token_uid_len xs more junk (ground arith))))
            ]
          ]
    ]

    same_index :
        (xs more junk : List ℕ)
        → ltb (length xs) tx_input_len ≡ false
        → read_u16_be ((xs ++ more) ++ junk) 33 ≡ read_u16_be xs 33
    unfolding read_u16_be
    same_index xs more junk h =
        let n = length-append xs more in
        rw
          (
            at-append (xs ++ more) junk 33 (ground (arith, n)),
            at-append xs more 33 (ground arith),
            at-append (xs ++ more) junk 34 (ground (arith, n)),
            at-append xs more 34 (ground arith),
          )
          refl

    pub input_Reads :
        (tx : TxInfo H) (xs : List ℕ)
        → ltb 0 tx.remaining_tokens ≡ false
        → ltb 0 tx.remaining_inputs ≡ true
        → Reads tx xs
    unfolding decode_element decode_input
    input_Reads tx xs t i = elim (Bool-cases (ltb (length xs) tx_input_len)) [
      | inl short ↦ waits (λ junk. rw (t, i, short) refl)
      | inr long ↦
          let enough = λ (more : List ℕ). long_enough tx_input_len xs more long in
          let index = λ (more junk : List ℕ). same_index xs more junk long in
          elim (Bool-cases (ltb 0 (read_u16_be xs 33))) [
            | inl wrong ↦
                fails (throw tx_state_err) (λ e. ground arith)
                  (λ more junk small. rw (t, i, enough more, index more junk, wrong) refl)
            | inr right ↦
                let tx' = record tx { remaining_inputs = tx.remaining_inputs - 1 } in
                takes tx' tx_input_len (omega arith) (ground arith) (λ more junk small.
                  rw (t, i, enough more, index more junk, right)
                    (ap more_data (shift_buffer-more tx' tx_input_len xs more junk (ground arith))))
          ]
    ]

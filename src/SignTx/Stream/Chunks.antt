-- ===== src/SignTx/Stream/Chunks.antt =====
-- However a stream of bytes is cut into pieces, the decoder does the same.
use Prim.{absurd}
use hathor_ledger_app.Prelude.{
  ℕ, zero, suc, ◌+◌, ◌^◌, ◌≤◌, ◌<◌, ◌≡◌, refl, sym, ap, ap₂, ◌∙◌, true, false, none, some, List, [],
  ◌∷◌, ◌++◌, take, drop, length, ◌==◌, All, arith, inl, inr, Bool-cases, append_assoc, append-nil,
  length-append, take-append-drop, length-drop, length-take,
}
use hathor_ledger_app.Result.{ok, throw, fault, tx_state_ready}
use hathor_ledger_app.Sdk.{Sdk}
use hathor_ledger_app.Token.{TokenData}
use hathor_ledger_app.App.{TxInfo}
use hathor_ledger_app.SignTx.{decode_elements, catch_all, more_data}
use hathor_ledger_app.SignTx.Stream.{load, feed, Decoding, settled, if_ready, concat, decode_chunks}
use hathor_ledger_app.SignTx.Stream.Element.{waits, takes, fails}
use hathor_ledger_app.SignTx.Stream.Output.{element_Reads}
use hathor_ledger_app.SignTx.Stream.Loop.{
  feed-load, after, round, round-after, round_same, going_on, failed-round, alone, alone_fails,
}

module _ {H : Type 0} (sdk : Sdk H) (registry : TokenData) where
  next_waiting :
      (next : TxInfo H → Decoding H) (k : ℕ) (tx : TxInfo H)
      → if_ready next (after sdk registry k (throw tx_state_ready, tx)) ≡ next tx
  unfolding after catch_all
  next_waiting next k tx = refl

  next_drained :
      (next : TxInfo H → Decoding H) (k : ℕ) (tx : TxInfo H) (xs junk : List ℕ)
      → length xs == 0 ≡ true
      → if_ready next (after sdk registry k (more_data (load tx xs junk))) ≡ next (load tx xs junk)
  unfolding after
  next_drained next k tx xs junk e = rw e refl

  -- Whatever lies behind the bytes that wait, `next` is the decoder on these bytes and `more`.
  Continues : List ℕ → (TxInfo H → Decoding H) → Type 0
  Continues more next =
      (k : ℕ) (tx : TxInfo H) (xs junk junk' : List ℕ)
      → length (xs ++ more) < k
      → length (xs ++ more) < 2 ^ 32
      → settled (next (load tx xs junk))
        ≡ settled (round sdk registry k (load tx (xs ++ more) junk'))

  module _ (more : List ℕ) (some_more : 0 < length more) (next : TxInfo H → Decoding H) where
    cut :
        Continues more next
        → (k k' : ℕ) (tx : TxInfo H) (xs junk junk' : List ℕ) → length xs < k
        → length (xs ++ more) < k'
        → length (xs ++ more) < 2 ^ 32
        → settled (if_ready next (round sdk registry k (load tx xs junk)))
          ≡ settled (round sdk registry k' (load tx (xs ++ more) junk'))
    unfolding Continues
    cut continues zero k' tx xs junk junk' h h' small = absurd (omega arith)
    cut continues (suc k) zero tx xs junk junk' h h' small = absurd (omega arith)
    cut continues (suc k) (suc k') tx xs junk junk' h h' small =
        let n' = length-append xs more in
        let fits : length (xs ++ []) < 2 ^ 32 = omega (arith, length-append xs [], n') in
        let then_next = λ (o : Decoding H). settled (if_ready next o) in
        let first = round-after sdk registry k (load tx xs junk) in
        let whole = round-after sdk registry k' (load tx (xs ++ more) junk') in
        elim (element_Reads sdk registry tx xs (omega (arith, n'))) [
          | waits w ↦
              ap then_next (first _ (w junk))
              ∙ ap settled (next_waiting next k (load tx xs junk))
              ∙ continues (suc k') tx xs junk junk' h' small
          | fails r failure f ↦
              (failed-round sdk registry next k (load tx xs junk) r failure
                (alone_fails sdk registry tx xs junk r (f [] junk fits))).1
              ∙ sym
                  (failed-round sdk registry next k' (load tx (xs ++ more) junk') r failure
                    (f more junk' small)).0
          | takes tx' n some_bytes inside t ↦
              let rest = drop n xs in
              let l = length-append rest more in
              let l' = length-drop n xs in
              let left : length (rest ++ more) == 0 ≡ false = ground arith in
              ap then_next (first _ (alone sdk registry tx tx' xs rest junk _ (t [] junk fits)))
              ∙ elim (Bool-cases (length rest == 0)) [
                | inl end ↦
                    ap settled (next_drained next k tx' rest _ end)
                    ∙ continues k' tx' rest _ _ (omega arith) (omega arith)
                | inr some_rest ↦
                    ap then_next (going_on sdk registry k tx' rest _ some_rest)
                    ∙ cut continues k k' tx' rest _ _ (omega arith) (omega arith) (omega arith)
              ]
              ∙ sym (
                  ap settled (
                    whole _ (t more junk' small)
                    ∙ going_on sdk registry k' tx' (rest ++ more) _ left))
        ]

  -- After the last chunk nothing is left to do.
  pub last_chunk :
      (o : Decoding H) → settled (if_ready (decode_chunks sdk registry []) o) ≡ settled o
  unfolding decode_chunks
  last_chunk none = refl
  last_chunk (some (throw e, tx)) = refl
  last_chunk (some (fault, tx)) = refl
  last_chunk (some (ok s, tx)) = elim (Bool-cases (s == tx_state_ready)) [
    | inl ready ↦ let e : s ≡ tx_state_ready = ground arith in rw e refl
    | inr other ↦ rw other (rw other refl)
  ]

  fed :
      (k : ℕ) (tx : TxInfo H) (xs chunk junk junk' : List ℕ)
      → length (xs ++ chunk) < k
      → length (xs ++ chunk) < 2 ^ 32
      → settled (decode_elements sdk registry (feed (load tx xs junk) chunk))
        ≡ settled (round sdk registry k (load tx (xs ++ chunk) junk'))
  unfolding decode_elements round
  fed k tx xs chunk junk junk' h small =
      ap (λ s. settled (decode_elements sdk registry s)) (feed-load tx xs junk chunk)
      ∙ round_same sdk registry _ k tx (xs ++ chunk) _ junk' (omega arith) h small

  chunks-Continues :
      (chunk : List ℕ) (chunks : List (List ℕ))
      → All (λ (c : List ℕ). 0 < length c) chunks
      → Continues (concat (chunk ∷ chunks)) (decode_chunks sdk registry (chunk ∷ chunks))
  unfolding Continues decode_chunks decode_elements round
  chunks-Continues chunk [] full k tx xs junk junk' h small =
      let n = length-append xs (chunk ++ []) in
      let m = length-append chunk [] in
      let l = length-append xs chunk in
      last_chunk (decode_elements sdk registry (feed (load tx xs junk) chunk))
      ∙ fed k tx xs chunk junk junk' (omega arith) (omega arith)
      ∙ ap (λ (ys : List ℕ). settled (round sdk registry k (load tx (xs ++ ys) junk')))
          (sym (append-nil chunk))
  chunks-Continues chunk (c ∷ cs) full k tx xs junk junk' h small =
      let rest = concat (c ∷ cs) in
      let assoc = append_assoc xs chunk rest in
      let n = ap length assoc in
      let some_more : 0 < length rest = omega (arith, length-append c (concat cs), full.0) in
      ap
        (λ s.
          settled (if_ready (decode_chunks sdk registry (c ∷ cs)) (decode_elements sdk registry s)))
        (feed-load tx xs junk chunk)
      ∙ cut rest some_more (decode_chunks sdk registry (c ∷ cs)) (chunks-Continues c cs full.1) _ k
          tx (xs ++ chunk) _ junk' (omega arith) (omega arith) (omega arith)
      ∙ ap (λ (ys : List ℕ). settled (round sdk registry k (load tx ys junk'))) assoc

  -- The bytes of a state that wait, and what lies behind them.
  as_load :
      (tx : TxInfo H)
      → tx.buffer_len ≤ length tx.buffer
      → tx ≡ load tx (take tx.buffer_len tx.buffer) (drop tx.buffer_len tx.buffer)
  as_load tx h =
      ap₂ (λ (b : List ℕ) (n : ℕ). record tx { buffer = b; buffer_len = n })
        (sym (take-append-drop tx.buffer_len tx.buffer))
        (omega (arith, length-take tx.buffer_len tx.buffer))

  -- The decoder alone, on a stream of which only the first piece may be empty: the pieces one after
  -- the other do the same as all of their bytes at once, up to what lies behind the bytes that wait.
  pub decode_chunks-concat :
      (tx : TxInfo H) (chunk : List ℕ) (chunks : List (List ℕ))
      → tx.buffer_len ≤ length tx.buffer
      → tx.buffer_len + length (concat (chunk ∷ chunks)) < 2 ^ 32
      → All (λ (c : List ℕ). 0 < length c) chunks
      → settled (decode_chunks sdk registry (chunk ∷ chunks) tx)
        ≡ settled (decode_elements sdk registry (feed tx (concat (chunk ∷ chunks))))
  unfolding Continues
  decode_chunks-concat tx chunk chunks inside small full =
      let xs = take tx.buffer_len tx.buffer in
      let junk = drop tx.buffer_len tx.buffer in
      let same = as_load tx inside in
      let all = concat (chunk ∷ chunks) in
      let fits : length (xs ++ all) < 2 ^ 32 =
        omega (arith, length-append xs all, length-take tx.buffer_len tx.buffer) in
      ap (λ s. settled (decode_chunks sdk registry (chunk ∷ chunks) s)) same
      ∙ chunks-Continues chunk chunks full (suc (length (xs ++ all))) tx xs junk junk (omega arith)
          fits
      ∙ sym (fed (suc (length (xs ++ all))) tx xs all junk junk (omega arith) fits)
      ∙ sym (ap (λ s. settled (decode_elements sdk registry (feed s all))) same)

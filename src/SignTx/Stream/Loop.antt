-- ===== src/SignTx/Stream/Loop.antt =====
-- The loop of the decoder on a stream that is cut in two.
use Prim.{absurd}
use hathor_ledger_app.Prelude.{
  ℕ, zero, suc, ◌^◌, ◌<◌, ◌≡◌, refl, sym, ap, ap₂, ◌∙◌, Bool, true, false, Option, none, some, List,
  [], ◌++◌, drop, length, ◌==◌, if◌then◌else◌, arith, inl, inr, Bool-cases, take-append,
  drop-append, append-nil, append_assoc, length-append, length-drop,
}
use hathor_ledger_app.Result.{
  Result, ok, throw, fault, sw_tx_parsing_fail, tx_state_err, tx_state_ready,
}
use hathor_ledger_app.Sdk.{Sdk}
use hathor_ledger_app.Token.{TokenData}
use hathor_ledger_app.App.{TxInfo}
use hathor_ledger_app.SignTx.{decode_element, decode_loop, catch_all, more_data}
use hathor_ledger_app.SignTx.Stream.{load, feed, trim, Decoding, settled, if_ready}
use hathor_ledger_app.SignTx.Stream.Element.{Failure, waits, takes, fails}
use hathor_ledger_app.SignTx.Stream.Output.{element_Reads}

module _ {H : Type 0} where
  pub trim-load : (tx : TxInfo H) (xs junk : List ℕ) → trim (load tx xs junk) ≡ load tx xs []
  trim-load tx xs junk =
      ap (λ (b : List ℕ). record tx { buffer = b; buffer_len = length xs })
        (take-append xs junk ∙ sym (append-nil xs))

  pub feed-load :
      (tx : TxInfo H) (xs junk chunk : List ℕ)
      → feed (load tx xs junk) chunk ≡ load tx (xs ++ chunk) (drop (length chunk) junk)
  feed-load tx xs junk chunk =
      ap₂ (λ (b : List ℕ) (n : ℕ). record tx { buffer = b; buffer_len = n })
        (ap₂ (λ (a b : List ℕ). a ++ (chunk ++ drop (length chunk) b)) (take-append xs junk)
            (drop-append xs junk)
          ∙ sym (append_assoc xs chunk (drop (length chunk) junk)))
        (sym (length-append xs chunk))

  module _ (sdk : Sdk H) (registry : TokenData) where
    -- What the loop does with an element that has been read.
    unfoldable pub after : ℕ → Result Bool × TxInfo H → Decoding H
    after fuel (ok true, tx) = catch_all sdk (decode_loop sdk fuel registry tx)
    after fuel (ok false, tx) = some (ok tx_state_ready, tx)
    after fuel (throw e, tx) = catch_all sdk (some (throw e, tx))
    after fuel (fault, tx) = some (fault, tx)

    unfoldable pub round : ℕ → TxInfo H → Decoding H
    round fuel tx = catch_all sdk (decode_loop sdk fuel registry tx)

    round_result :
        (fuel : ℕ) (tx : TxInfo H) (r : Result Bool)
        → (decode_element sdk registry tx).0 ≡ r
        → round (suc fuel) tx ≡ after fuel (r, (decode_element sdk registry tx).1)
    unfolding round decode_loop after catch_all
    round_result fuel tx (ok true) e = rw (decode_loop, e) refl
    round_result fuel tx (ok false) e = rw (decode_loop, e) refl
    round_result fuel tx (throw x) e = rw (decode_loop, e) refl
    round_result fuel tx fault e = rw (decode_loop, e) refl

    pub round-after :
        (fuel : ℕ) (tx : TxInfo H) (r : Result Bool × TxInfo H)
        → decode_element sdk registry tx ≡ r
        → round (suc fuel) tx ≡ after fuel r
    round-after fuel tx r e = round_result fuel tx _ refl ∙ ap (after fuel) e

    -- An element that is taken, where nothing follows.
    pub alone :
        (tx tx' : TxInfo H) (xs rest junk behind : List ℕ)
        → decode_element sdk registry (load tx (xs ++ []) junk)
          ≡ more_data (load tx' (rest ++ []) behind)
        → decode_element sdk registry (load tx xs junk) ≡ more_data (load tx' rest behind)
    alone tx tx' xs rest junk behind e =
        ap (λ (ys : List ℕ). decode_element sdk registry (load tx ys junk)) (sym (append-nil xs))
        ∙ e
        ∙ ap (λ (ys : List ℕ). more_data (load tx' ys behind)) (append-nil rest)

    pub alone_fails :
        (tx : TxInfo H) (xs junk : List ℕ) (r : Result Bool)
        → (decode_element sdk registry (load tx (xs ++ []) junk)).0 ≡ r
        → (decode_element sdk registry (load tx xs junk)).0 ≡ r
    alone_fails tx xs junk r e =
        ap (λ (ys : List ℕ). (decode_element sdk registry (load tx ys junk)).0)
          (sym (append-nil xs))
        ∙ e

    -- What becomes of an element that fails.
    unfoldable pub failed : Result Bool → Option (Result ℕ × Option (TxInfo H))
    failed (ok _) = none
    failed (throw e) = some (ok (if e == sw_tx_parsing_fail then tx_state_err else e), none)
    failed fault = some (fault, none)

    -- A failure ends the loop, and the host's next chunk is not read.
    pub failed-round :
        (next : TxInfo H → Decoding H) (fuel : ℕ) (tx : TxInfo H) (r : Result Bool)
        → Failure r
        → (decode_element sdk registry tx).0 ≡ r
        → (settled (round (suc fuel) tx) ≡ failed r)
          × (settled (if_ready next (round (suc fuel) tx)) ≡ failed r)
    unfolding round decode_loop catch_all failed
    failed-round next fuel tx (ok _) h e = elim h [ ]
    failed-round next fuel tx fault h e = rw (decode_loop, e) (refl, refl)
    failed-round next fuel tx (throw x) h e = elim (Bool-cases (x == sw_tx_parsing_fail)) [
      | inl malformed ↦ rw (decode_loop, e, malformed) (refl, refl)
      | inr other ↦
          let not_ready : x == tx_state_ready ≡ false = ground arith in
          rw (decode_loop, e, other, not_ready) (refl, rw not_ready refl)
    ]

    waiting_settled :
        (fuel : ℕ) (tx : TxInfo H) (xs junk : List ℕ)
        → settled (after fuel (throw tx_state_ready, load tx xs junk))
          ≡ some (ok tx_state_ready, some (load tx xs []))
    unfolding after catch_all
    waiting_settled fuel tx xs junk =
        ap (λ (s : TxInfo H). some (ok tx_state_ready, some s)) (trim-load tx xs junk)

    pub drained_settled :
        (fuel : ℕ) (tx : TxInfo H) (xs junk : List ℕ)
        → length xs == 0 ≡ true
        → settled (after fuel (more_data (load tx xs junk)))
          ≡ some (ok tx_state_ready, some (load tx xs []))
    unfolding after
    drained_settled fuel tx xs junk e =
        rw e (ap (λ (s : TxInfo H). some (ok tx_state_ready, some s)) (trim-load tx xs junk))

    pub going_on :
        (fuel : ℕ) (tx : TxInfo H) (xs junk : List ℕ)
        → length xs == 0 ≡ false
        → after fuel (more_data (load tx xs junk)) ≡ round fuel (load tx xs junk)
    unfolding after round
    going_on fuel tx xs junk e = rw e refl

    -- What lies behind the bytes, and fuel beyond what is enough, make no difference.
    pub round_same :
        (k k' : ℕ) (tx : TxInfo H) (xs junk junk' : List ℕ)
        → length xs < k
        → length xs < k'
        → length xs < 2 ^ 32
        → settled (round k (load tx xs junk)) ≡ settled (round k' (load tx xs junk'))
    round_same zero k' tx xs junk junk' h h' small = absurd (omega arith)
    round_same (suc k) zero tx xs junk junk' h h' small = absurd (omega arith)
    round_same (suc k) (suc k') tx xs junk junk' h h' small =
        elim (element_Reads sdk registry tx xs small) [
          | waits w ↦
              ap settled (round-after k (load tx xs junk) _ (w junk))
              ∙ waiting_settled k tx xs junk
              ∙ sym (waiting_settled k' tx xs junk')
              ∙ sym (ap settled (round-after k' (load tx xs junk') _ (w junk')))
          | takes tx' n some_bytes inside t ↦
              let rest = drop n xs in
              let fits : length (xs ++ []) < 2 ^ 32 = omega (arith, length-append xs []) in
              let step = λ (b : List ℕ). alone tx tx' xs rest b _ (t [] b fits) in
              ap settled (round-after k (load tx xs junk) _ (step junk))
              ∙ elim (Bool-cases (length rest == 0)) [
                | inl end ↦
                    drained_settled k tx' rest _ end ∙ sym (drained_settled k' tx' rest _ end)
                | inr left ↦
                    ap settled (going_on k tx' rest _ left)
                    ∙ round_same k k' tx' rest _ _ (omega (arith, length-drop n xs))
                        (omega (arith, length-drop n xs)) (omega (arith, length-drop n xs))
                    ∙ sym (ap settled (going_on k' tx' rest _ left))
              ]
              ∙ sym (ap settled (round-after k' (load tx xs junk') _ (step junk')))
          | fails r failure f ↦
              let fits : length (xs ++ []) < 2 ^ 32 = omega (arith, length-append xs []) in
              let step = λ (b : List ℕ). alone_fails tx xs b r (f [] b fits) in
              (failed-round (round 0) k (load tx xs junk) r failure (step junk)).0
              ∙ sym (failed-round (round 0) k' (load tx xs junk') r failure (step junk')).0
        ]

-- ===== src/Format/Fixed.antt =====
-- `format_fpu64` of src/common/format.c: a number with a decimal point. The destination is the
-- array with what it held before, since the bytes behind the text are not written in every case.
use Prim.{absurd}
use hathor_ledger_app.Prelude.{
  drop-replicate, ℕ, zero, suc, ◌+◌, ◌-◌, ◌^◌, ◌≤◌, ◌<◌, ◌≡◌, All, All-append, subst, refl, sym, ap,
  ◌∙◌, false, List, [], ◌∷◌, ◌++◌, Option, none, some, append-nil, append_assoc, take,
  take-append-drop, drop, length, length-drop, length-take, length-replicate, replicate, ltb, leb,
  if◌then◌else◌, arith, Bool-cases, inl, inr,
}
use hathor_ledger_app.Result.{ok, throw, fault}
use hathor_ledger_app.Format.{format_u64}
use hathor_ledger_app.Format.Decimal.{decimal, read_decimal, format_u64-decimal}
use hathor_ledger_app.Format.Digits.{IsDigit, decimal-IsDigit, length-decimal}

-- What `strncpy` writes.
abbrev pub strncpy : List ℕ → ℕ → List ℕ
strncpy src n = take n (src ++ replicate n 0)

-- The number of digits is not above the number of decimals.
unfoldable pub fraction_only : List ℕ → List ℕ → ℕ → Option (List ℕ)
fraction_only dst buffer decimals =
    let used = 2 + (decimals - length buffer) in
    if leb (length dst) used
    then none
    else some (
        b'0'
        ∷ b'.'
        ∷ (replicate (decimals - length buffer) b'0' ++ strncpy buffer (length dst - used)))

unfoldable pub with_whole : List ℕ → List ℕ → ℕ → Option (List ℕ)
with_whole dst buffer decimals =
    let shift = length buffer - decimals in
    if leb (length dst) (length buffer + 1 + decimals)
    then none
    else some (
        take shift buffer
        ++ (b'.' ∷ (strncpy (drop shift buffer) decimals ++ drop (length buffer + 1) dst)))

-- `none` is the result false, before which nothing is written. `format_u64` gets 21 bytes, in which
-- every number of 64 bits fits.
unfoldable pub format_fpu64 : List ℕ → ℕ → ℕ → Option (List ℕ)
format_fpu64 dst value decimals = elim (format_u64 21 value) [
  | throw e ↦ none
  | fault ↦ none
  | ok none ↦ none
  | ok (some buffer) ↦
      if leb (length buffer) decimals
      then fraction_only dst buffer decimals
      else with_whole dst buffer decimals
]

read-zeros : (k : ℕ) (text : List ℕ) → read_decimal (replicate k b'0' ++ text) ≡ read_decimal text
read-zeros zero text = refl
read-zeros (suc k) text = read-zeros k text

zeros-IsDigit : (k : ℕ) → All IsDigit (replicate k b'0')
zeros-IsDigit zero = tt
zeros-IsDigit (suc k) = ((omega arith, omega arith), zeros-IsDigit k)

length-zeros : (k : ℕ) (text : List ℕ) → length (replicate k b'0' ++ text) ≡ k + length text
length-zeros zero text = omega arith
length-zeros (suc k) text = omega (arith, length-zeros k text)

abbrev pub zeros : ℕ → List ℕ
zeros n = replicate n 0

take-zeros : (n m : ℕ) → n ≤ m → take n (zeros m) ≡ zeros n
take-zeros zero m h = refl
take-zeros (suc n) zero h = absurd (omega arith)
take-zeros (suc n) (suc m) h = ap (λ l. 0 ∷ l) (take-zeros n m (omega arith))

take_pad :
    (n m : ℕ) (src : List ℕ)
    → length src ≤ n
    → n ≤ length src + m
    → take n (src ++ zeros m) ≡ src ++ zeros (n - length src)
take_pad n m [] h l = let e : n ≡ n - 0 = omega arith in take-zeros n m (omega arith) ∙ ap zeros e
take_pad zero m (c ∷ src) h l = absurd (omega arith)
take_pad (suc n) m (c ∷ src) h l =
    let e : n - length src ≡ suc n - suc (length src) = omega arith in
    ap (λ k. c ∷ k) (take_pad n m src (omega arith) (omega arith) ∙ ap (λ k. src ++ zeros k) e)

-- Where the text fits, `strncpy` writes it and fills the rest with zeros.
strncpy_pads :
    (src : List ℕ) (n : ℕ) → length src ≤ n → strncpy src n ≡ src ++ zeros (n - length src)
strncpy_pads src n h = take_pad n n src h (omega arith)

fraction_only-text :
    (digits : List ℕ) (dst_len decimals : ℕ)
    → length digits ≤ decimals
    → 22 + decimals ≤ dst_len
    → fraction_only (zeros dst_len) digits decimals
      ≡ some (
          b'0'
          ∷ b'.'
          ∷ ((replicate (decimals - length digits) b'0' ++ digits)
              ++ zeros (dst_len - 2 - decimals)))
unfolding fraction_only
fraction_only-text digits dst_len decimals h room =
    let k = decimals - length digits in
    let n = length-replicate {A = ℕ} dst_len 0 in
    let fits : leb dst_len (2 + k) ≡ false = ground arith in
    let left : dst_len - (2 + k) - length digits ≡ dst_len - 2 - decimals = omega arith in
    rw (n, fits)
      (ap (λ l. some (b'0' ∷ b'.' ∷ l))
        (ap (λ l. replicate k b'0' ++ l)
            (strncpy_pads digits (dst_len - (2 + k)) (omega arith)
              ∙ ap (λ m. digits ++ zeros m) left)
          ∙ sym (append_assoc (replicate k b'0') digits (zeros (dst_len - 2 - decimals)))))

with_whole-text :
    (digits : List ℕ) (dst_len decimals : ℕ)
    → decimals < length digits
    → length digits ≤ 20
    → 22 + decimals ≤ dst_len
    → with_whole (zeros dst_len) digits decimals
      ≡ some (
          take (length digits - decimals) digits
          ++ (b'.'
              ∷ (drop (length digits - decimals) digits ++ zeros (dst_len - (length digits + 1)))))
unfolding with_whole
with_whole-text digits dst_len decimals h most room =
    let shift = length digits - decimals in
    let n = length-replicate {A = ℕ} dst_len 0 in
    let fits : leb dst_len (length digits + 1 + decimals) ≡ false = ground arith in
    let size : length (drop shift digits) ≡ decimals = length-drop shift digits ∙ omega arith in
    let e : decimals - length (drop shift digits) ≡ 0 = omega arith in
    let fraction : strncpy (drop shift digits) decimals ≡ drop shift digits =
      strncpy_pads (drop shift digits) decimals (omega arith)
      ∙ ap (λ m. drop shift digits ++ zeros m) e
      ∙ append-nil (drop shift digits) in
    rw (n, fits, fraction, drop-replicate {A = ℕ} (length digits + 1) dst_len 0) refl

-- Into an array of zeros with room for 22 characters and the decimals, `format_fpu64` writes for a
-- number of 64 bits a text with a point, at least one digit before it and `decimals` behind it, and
-- leaves zeros behind the text. Without the point the text is characters from 0 to 9 that spell the
-- number.
pub format_fpu64-read :
    (dst_len value decimals : ℕ)
    → value < 2 ^ 64
    → 22 + decimals ≤ dst_len
    → (whole : List ℕ) × (fraction : List ℕ) × (format_fpu64 (replicate dst_len 0) value decimals
        ≡ some (
            whole ++ (b'.' ∷ (fraction ++ zeros (dst_len - (length whole + 1 + length fraction))))))
      × (0 < length whole)
      × (length fraction ≡ decimals)
      × All IsDigit (whole ++ fraction)
      × (read_decimal (whole ++ fraction) ≡ value)
unfolding format_fpu64
format_fpu64-read dst_len value decimals small room =
    let digits = decimal value in
    let text = format_u64-decimal 21 value (omega arith) (omega arith) in
    let count = length-decimal 20 value (omega arith) (omega arith) (omega arith) in
    let fits : ltb 21 (length digits + 1) ≡ false = ground arith in
    elim (Bool-cases (leb (length digits) decimals)) [
      | inl below ↦
          let k = decimals - length digits in
          let fraction = replicate k b'0' ++ digits in
          let size : length fraction ≡ decimals = length-zeros k digits ∙ ground arith in
          let left : dst_len - 2 - decimals ≡ dst_len - (1 + 1 + length fraction) = omega arith in
          (
            b'0' ∷ [],
            fraction,
            rw (format_fpu64, text.0, fits, below)
                (fraction_only-text digits dst_len decimals (ground arith) room
                  ∙ ap (λ m. some (b'0' ∷ b'.' ∷ (fraction ++ zeros m))) left),
            omega arith,
            size,
            (
              (omega arith, omega arith),
              All-append IsDigit (replicate k b'0') digits (zeros-IsDigit k)
                  (decimal-IsDigit value),
            ),
            read-zeros k digits ∙ text.1,
          )
      | inr above ↦
          let shift = length digits - decimals in
          let longer : decimals < length digits = ground arith in
          let whole = take shift digits in
          let fraction = drop shift digits in
          let w : length whole ≡ shift = length-take shift digits ∙ omega arith in
          let f : length fraction ≡ decimals = length-drop shift digits ∙ omega arith in
          let left : dst_len - (length digits + 1)
              ≡ dst_len - (length whole + 1 + length fraction) =
            omega arith in
          (
            whole,
            fraction,
            rw (format_fpu64, text.0, fits, above)
                (with_whole-text digits dst_len decimals longer count.1 room
                  ∙ ap (λ m. some (whole ++ (b'.' ∷ (fraction ++ zeros m)))) left),
            omega arith,
            f,
            subst (All IsDigit) (sym (take-append-drop shift digits)) (decimal-IsDigit value),
            ap read_decimal (take-append-drop shift digits) ∙ text.1,
          )
    ]

-- ===== src/Bip32/Format/Path.antt =====
-- The text of a derivation path: that it is written whole in the room the screens give it, that it
-- says which path it is, and what becomes of it in less room.
use Prim.{absurd}
use hathor_ledger_app.Prelude.{
  ℕ, ◌+◌, ◌-◌, ◌*◌, ◌/◌, ◌%◌, ◌^◌, ◌≤◌, ◌<◌, ◌≡◌, refl, sym, ap, ap₂, ◌∙◌, Bool, true, false,
  bit_and, some, List, [], ◌∷◌, ◌++◌, append-nil, append_assoc, take, take_all, length, length-take,
  length-append, All, All-take, ◌||◌, ltb, leb, ◌==◌, if◌then◌else◌, arith, Bool-cases, inl, inr,
}
use hathor_ledger_app.Prelude.Bits.{bit_and-ones, bit_and-power}
use hathor_ledger_app.Format.Decimal.{decimal, read_from, format_u64-decimal}
use hathor_ledger_app.Format.Digits.{IsDigit, decimal-IsDigit, length-decimal}
use hathor_ledger_app.Bip32.Format.{print, format_levels, bip32_path_format}

abbrev mark : Bool → ℕ → List ℕ
mark true c = []
mark false c = c ∷ []

-- The text of a path: its levels in decimal with a quote behind the hardened ones, a slash between
-- two levels.
abbrev pub path_text : List ℕ → List ℕ
path_text [] = []
path_text (x ∷ xs) =
    decimal (x % 2 ^ 31)
    ++ (mark (x / 2 ^ 31 % 2 == 0) b'\'' ++ (mark (length xs == 0) b'/' ++ path_text xs))

-- The levels that a text spells; `acc` is the number so far, `hard` the bit that a quote sets.
abbrev pub read_path : ℕ → ℕ → List ℕ → List ℕ
read_path acc hard [] = (acc + hard) ∷ []
read_path acc hard (c ∷ cs) =
    let next = read_path 0 0 cs in
    let quoted = read_path acc (2 ^ 31) cs in
    let digit = read_path (acc * 10 + (c - b'0')) hard cs in
    if c == b'/' then (acc + hard) ∷ next else if c == b'\'' then quoted else digit

read_path-digits :
    (acc hard : ℕ) (ds rest : List ℕ)
    → All IsDigit ds
    → read_path acc hard (ds ++ rest) ≡ read_path (read_from acc ds) hard rest
read_path-digits acc hard [] rest d = refl
read_path-digits acc hard (c ∷ ds) rest d =
    let slash : (c == b'/') ≡ false = ground (arith, d.0) in
    let quote : (c == b'\'') ≡ false = ground (arith, d.0) in
    rw (slash, quote) (read_path-digits (acc * 10 + (c - b'0')) hard ds rest d.1)

print_fits :
    (out_len : ℕ) (out text : List ℕ)
    → 0 < length text
    → length out + length text < out_len
    → print out_len out text ≡ some (out ++ text)
unfolding print
print_fits out_len out text p h =
    rw (take_all (out_len - length out - 1) text (omega arith)) (ground arith)

print-mark :
    (out_len : ℕ) (out : List ℕ) (skip : Bool) (c : ℕ)
    → length out + length (mark skip c) < out_len
    → (if skip then some out else print out_len out (c ∷ [])) ≡ some (out ++ mark skip c)
print-mark out_len out true c h = ap some (sym (append-nil out))
print-mark out_len out false c h = print_fits out_len out (c ∷ []) (omega arith) h

-- A number below 2 ^ 31 has ten digits at most.
digits : (x : ℕ) → (0 < length (decimal (x % 2 ^ 31))) × (length (decimal (x % 2 ^ 31)) ≤ 10)
digits x = length-decimal 10 (x % 2 ^ 31) (omega arith) (omega arith) (omega arith)

length-mark : (b : Bool) (c : ℕ) → length (mark b c) ≤ 1
length-mark true c = omega arith
length-mark false c = omega arith

four :
    (d q s t : List ℕ) → length (d ++ (q ++ (s ++ t))) ≡ length d + length q + length s + length t
four d q s t =
    omega (arith, length-append d (q ++ (s ++ t)), length-append q (s ++ t), length-append s t)

high_bit : (x : ℕ) → (bit_and x (2 ^ 31) == 0) ≡ (x / 2 ^ 31 % 2 == 0)
high_bit x = rw (bit_and-power 31 x) (ground arith)

format_levels-text :
    (xs : List ℕ) (out_len : ℕ) (out : List ℕ)
    → length out + length (path_text xs) < out_len
    → format_levels xs out_len out ≡ some (out ++ path_text xs)
unfolding format_levels
format_levels-text [] out_len out h = ap some (sym (append-nil out))
format_levels-text (x ∷ xs) out_len out h =
    let d = decimal (x % 2 ^ 31) in
    let q = mark (x / 2 ^ 31 % 2 == 0) b'\'' in
    let s = mark (length xs == 0) b'/' in
    let count = four d q s (path_text xs) in
    let c1 = length-append out d in
    let c2 = length-append (out ++ d) q in
    let c3 = length-append ((out ++ d) ++ q) s in
    let p1 = print_fits out_len out d (digits x).0 (omega arith) in
    let p2 = print-mark out_len (out ++ d) (x / 2 ^ 31 % 2 == 0) b'\'' (omega arith) in
    let p3 = print-mark out_len ((out ++ d) ++ q) (length xs == 0) b'/' (omega arith) in
    let rest = format_levels-text xs out_len (((out ++ d) ++ q) ++ s) (omega arith) in
    rw (bit_and-ones 31 x, high_bit x, p1, p2, p3, rest)
      (ap some (
        append_assoc ((out ++ d) ++ q) s (path_text xs)
        ∙ append_assoc (out ++ d) q (s ++ path_text xs)
        ∙ append_assoc out d (q ++ (s ++ path_text xs))))

-- Eleven characters and a slash for a level.
length-path_text : (xs : List ℕ) → length (path_text xs) ≤ 12 * length xs - 1
length-path_text [] = omega arith
length-path_text (x ∷ []) =
    let quote = x / 2 ^ 31 % 2 == 0 in
    let most = digits x in
    omega (arith, four (decimal (x % 2 ^ 31)) (mark quote b'\'') [] [], length-mark quote b'\'')
length-path_text (x ∷ y ∷ ys) =
    let quote = x / 2 ^ 31 % 2 == 0 in
    let most = digits x in
    let text = path_text (y ∷ ys) in
    let more : (length (y ∷ ys) == 0) ≡ false = ground arith in
    rw more (
      omega (
        arith,
        four (decimal (x % 2 ^ 31)) (mark quote b'\'') (b'/' ∷ []) text,
        length-mark quote b'\'',
        length-path_text (y ∷ ys),
      ))

read_path-level :
    (x : ℕ) (rest : List ℕ)
    → x < 2 ^ 32
    → read_path 0 0 (decimal (x % 2 ^ 31) ++ (mark (x / 2 ^ 31 % 2 == 0) b'\'' ++ rest))
      ≡ read_path (x % 2 ^ 31) (x / 2 ^ 31 * 2 ^ 31) rest
read_path-level x rest h =
    let n = x % 2 ^ 31 in
    let value = (format_u64-decimal 35 n (omega arith) (omega arith)).1 in
    elim (Bool-cases (x / 2 ^ 31 % 2 == 0)) [
      | inl plain ↦
          let zero_bit : x / 2 ^ 31 * 2 ^ 31 ≡ 0 = ground arith in
          rw (plain, read_path-digits 0 0 (decimal n) rest (decimal-IsDigit n), value, zero_bit)
            refl
      | inr hard ↦
          let bit : x / 2 ^ 31 * 2 ^ 31 ≡ 2 ^ 31 = ground arith in
          rw (hard, read_path-digits 0 0 (decimal n) (b'\'' ∷ rest) (decimal-IsDigit n), value, bit)
            refl
    ]

read-path_text :
    (xs : List ℕ) → 0 < length xs → All (λ x. x < 2 ^ 32) xs → read_path 0 0 (path_text xs) ≡ xs
read-path_text [] p h = absurd (omega arith)
read-path_text (x ∷ []) p h = read_path-level x [] h.0 ∙ ap (λ n. n ∷ []) (omega arith)
read-path_text (x ∷ y ∷ ys) p h =
    let e : x % 2 ^ 31 + x / 2 ^ 31 * 2 ^ 31 ≡ x = omega arith in
    let more : (length (y ∷ ys) == 0) ≡ false = ground arith in
    rw more (
      read_path-level x (b'/' ∷ path_text (y ∷ ys)) h.0
      ∙ ap₂ (λ n ns. n ∷ ns) e (read-path_text (y ∷ ys) (omega arith) h.1))

-- A path of one to five 32 bit levels is written whole where there is room for 60 characters, as
-- the screens have it, and the text says which path it is: reading its levels back gives the path.
pub bip32_path_format-read :
    (path : List ℕ) (path_len out_len : ℕ)
    → 0 < path_len
    → path_len ≤ 5
    → path_len ≤ length path
    → All (λ x. x < 2 ^ 32) path
    → 60 ≤ out_len
    → (bip32_path_format path path_len out_len ≡ some (path_text (take path_len path)))
      × (read_path 0 0 (path_text (take path_len path)) ≡ take path_len path)
unfolding bip32_path_format
bip32_path_format-read path path_len out_len p most enough small room =
    let levels = take path_len path in
    let count : length levels ≡ path_len = omega (arith, length-take path_len path) in
    let fits = length-path_text levels in
    let accepted : (path_len == 0 || ltb 5 path_len) ≡ false = ground arith in
    (
      rw accepted (format_levels-text levels out_len [] (omega arith)),
      read-path_text levels (omega arith) (All-take (λ x. x < 2 ^ 32) path_len path small),
    )

print_cut :
    (out_len : ℕ) (text : List ℕ)
    → 1 < out_len
    → out_len ≤ length text
    → print out_len [] text ≡ some (take (out_len - 1) text)
unfolding print
print_cut out_len text room short =
    let count = length-take (out_len - 0 - 1) text in
    let kept : (length (take (out_len - 0 - 1) text) == 0
          || leb (out_len - 0) (length (take (out_len - 0 - 1) text)))
        ≡ false =
      ground arith in
    let same : out_len - 0 - 1 ≡ out_len - 1 = omega arith in
    rw kept (ap (λ k. some (take k text)) same)

-- With room for more than one character, but less than a number and its terminator need, the
-- function still returns true and leaves the first digits of the number, here for a path of one
-- level that is not hardened.
pub bip32_path_format-truncated :
    (x out_len : ℕ)
    → x < 2 ^ 31
    → 1 < out_len
    → out_len ≤ length (decimal x)
    → bip32_path_format (x ∷ []) 1 out_len ≡ some (take (out_len - 1) (decimal x))
unfolding bip32_path_format format_levels
bip32_path_format-truncated x out_len h room short =
    let n : bit_and x 0x7FFFFFFF ≡ x = bit_and-ones 31 x ∙ omega arith in
    let bit : (bit_and x 0x80000000 == 0) ≡ true = high_bit x ∙ ground arith in
    rw (n, bit, print_cut out_len (decimal x) room short) refl

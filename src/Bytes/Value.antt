-- ===== src/Bytes/Value.antt =====
-- What read.c computes: the number that the bytes spell, most or least significant first.
use hathor_ledger_app.Prelude.{ℕ, ◌+◌, ◌*◌, ◌≡◌, bit_or, List, arith}
use hathor_ledger_app.Prelude.Bits.{bit_or-add, bit_or-add_high}
use hathor_ledger_app.Bytes.{
  IsByte, at, shl, read_u16_be, read_u32_be, read_u64_be, read_u16_le, read_u32_le, read_u64_le,
}

-- `a` then `b` in base 256.
infixl 62 ◌▹◌
abbrev pub ◌▹◌ : ℕ → ℕ → ℕ
a ▹ b = a * 256 + b

pub read_u16_be-eq :
    (p : List ℕ) (o a b : ℕ)
    → at p (o + 0) ≡ a
    → at p (o + 1) ≡ b
    → IsByte a
    → IsByte b
    → read_u16_be p o ≡ a ▹ b
unfolding read_u16_be
read_u16_be-eq p o a b ha hb sa sb =
    rw (ha, hb)
      (let f1 = bit_or-add 8 (a) (shl 32 a 8) (shl 32 b 0) (omega (arith)) (omega arith) in
        omega (arith, f1))

pub read_u32_be-eq :
    (p : List ℕ) (o a b c d : ℕ)
    → at p (o + 0) ≡ a
    → at p (o + 1) ≡ b
    → at p (o + 2) ≡ c
    → at p (o + 3) ≡ d
    → IsByte a
    → IsByte b
    → IsByte c
    → IsByte d
    → read_u32_be p o ≡ a ▹ b ▹ c ▹ d
unfolding read_u32_be
read_u32_be-eq p o a b c d ha hb hc hd sa sb sc sd =
    rw (ha, hb, hc, hd)
      (let f1 = bit_or-add 24 (a) (shl 32 a 24) (shl 32 b 16) (omega (arith)) (omega arith) in
        let f2 =
          bit_or-add 16 (a ▹ b) (bit_or (shl 32 a 24) (shl 32 b 16)) (shl 32 c 8)
            (omega (arith, f1)) (omega arith) in
        let f3 =
          bit_or-add 8 (a ▹ b ▹ c) (bit_or (bit_or (shl 32 a 24) (shl 32 b 16)) (shl 32 c 8))
            (shl 32 d 0) (omega (arith, f1, f2)) (omega arith) in
        omega (arith, f1, f2, f3))

pub read_u64_be-eq :
    (p : List ℕ) (o a b c d e f g h : ℕ)
    → at p (o + 0) ≡ a
    → at p (o + 1) ≡ b
    → at p (o + 2) ≡ c
    → at p (o + 3) ≡ d
    → at p (o + 4) ≡ e
    → at p (o + 5) ≡ f
    → at p (o + 6) ≡ g
    → at p (o + 7) ≡ h
    → IsByte a
    → IsByte b
    → IsByte c
    → IsByte d
    → IsByte e
    → IsByte f
    → IsByte g
    → IsByte h
    → read_u64_be p o ≡ a ▹ b ▹ c ▹ d ▹ e ▹ f ▹ g ▹ h
unfolding read_u64_be
read_u64_be-eq p o a b c d e f g h ha hb hc hd he hf hg hh sa sb sc sd se sf sg sh =
    rw (ha, hb, hc, hd, he, hf, hg, hh)
      (let f1 = bit_or-add 56 (a) (shl 64 a 56) (shl 64 b 48) (omega (arith)) (omega arith) in
        let f2 =
          bit_or-add 48 (a ▹ b) (bit_or (shl 64 a 56) (shl 64 b 48)) (shl 64 c 40)
            (omega (arith, f1)) (omega arith) in
        let f3 =
          bit_or-add 40 (a ▹ b ▹ c) (bit_or (bit_or (shl 64 a 56) (shl 64 b 48)) (shl 64 c 40))
            (shl 64 d 32) (omega (arith, f1, f2)) (omega arith) in
        let f4 =
          bit_or-add 32 (a ▹ b ▹ c ▹ d)
            (bit_or (bit_or (bit_or (shl 64 a 56) (shl 64 b 48)) (shl 64 c 40)) (shl 64 d 32))
            (shl 64 e 24) (omega (arith, f1, f2, f3)) (omega arith) in
        let f5 =
          bit_or-add 24 (a ▹ b ▹ c ▹ d ▹ e)
            (bit_or
              (bit_or (bit_or (bit_or (shl 64 a 56) (shl 64 b 48)) (shl 64 c 40)) (shl 64 d 32))
              (shl 64 e 24))
            (shl 64 f 16) (omega (arith, f1, f2, f3, f4)) (omega arith) in
        let f6 =
          bit_or-add 16 (a ▹ b ▹ c ▹ d ▹ e ▹ f)
            (bit_or
              (bit_or
                (bit_or (bit_or (bit_or (shl 64 a 56) (shl 64 b 48)) (shl 64 c 40)) (shl 64 d 32))
                (shl 64 e 24))
              (shl 64 f 16))
            (shl 64 g 8) (omega (arith, f1, f2, f3, f4, f5)) (omega arith) in
        let f7 =
          bit_or-add 8 (a ▹ b ▹ c ▹ d ▹ e ▹ f ▹ g)
            (bit_or
              (bit_or
                (bit_or
                  (bit_or (bit_or (bit_or (shl 64 a 56) (shl 64 b 48)) (shl 64 c 40)) (shl 64 d 32))
                  (shl 64 e 24))
                (shl 64 f 16))
              (shl 64 g 8))
            (shl 64 h 0) (omega (arith, f1, f2, f3, f4, f5, f6)) (omega arith) in
        omega (arith, f1, f2, f3, f4, f5, f6, f7))

pub read_u16_le-eq :
    (p : List ℕ) (o a b : ℕ)
    → at p (o + 0) ≡ a
    → at p (o + 1) ≡ b
    → IsByte a
    → IsByte b
    → read_u16_le p o ≡ b ▹ a
unfolding read_u16_le
read_u16_le-eq p o a b ha hb sa sb =
    rw (ha, hb)
      (let f1 = bit_or-add_high 8 b (shl 32 a 0) (shl 32 b 8) (omega arith) (omega (arith)) in
        omega (arith, f1))

pub read_u32_le-eq :
    (p : List ℕ) (o a b c d : ℕ)
    → at p (o + 0) ≡ a
    → at p (o + 1) ≡ b
    → at p (o + 2) ≡ c
    → at p (o + 3) ≡ d
    → IsByte a
    → IsByte b
    → IsByte c
    → IsByte d
    → read_u32_le p o ≡ d ▹ c ▹ b ▹ a
unfolding read_u32_le
read_u32_le-eq p o a b c d ha hb hc hd sa sb sc sd =
    rw (ha, hb, hc, hd)
      (let f1 = bit_or-add_high 8 b (shl 32 a 0) (shl 32 b 8) (omega arith) (omega (arith)) in
        let f2 =
          bit_or-add_high 16 c (bit_or (shl 32 a 0) (shl 32 b 8)) (shl 32 c 16) (omega arith)
            (omega (arith, f1)) in
        let f3 =
          bit_or-add_high 24 d (bit_or (bit_or (shl 32 a 0) (shl 32 b 8)) (shl 32 c 16))
            (shl 32 d 24) (omega arith) (omega (arith, f1, f2)) in
        omega (arith, f1, f2, f3))

pub read_u64_le-eq :
    (p : List ℕ) (o a b c d e f g h : ℕ)
    → at p (o + 0) ≡ a
    → at p (o + 1) ≡ b
    → at p (o + 2) ≡ c
    → at p (o + 3) ≡ d
    → at p (o + 4) ≡ e
    → at p (o + 5) ≡ f
    → at p (o + 6) ≡ g
    → at p (o + 7) ≡ h
    → IsByte a
    → IsByte b
    → IsByte c
    → IsByte d
    → IsByte e
    → IsByte f
    → IsByte g
    → IsByte h
    → read_u64_le p o ≡ h ▹ g ▹ f ▹ e ▹ d ▹ c ▹ b ▹ a
unfolding read_u64_le
read_u64_le-eq p o a b c d e f g h ha hb hc hd he hf hg hh sa sb sc sd se sf sg sh =
    rw (ha, hb, hc, hd, he, hf, hg, hh)
      (let f1 = bit_or-add_high 8 b (shl 64 a 0) (shl 64 b 8) (omega arith) (omega (arith)) in
        let f2 =
          bit_or-add_high 16 c (bit_or (shl 64 a 0) (shl 64 b 8)) (shl 64 c 16) (omega arith)
            (omega (arith, f1)) in
        let f3 =
          bit_or-add_high 24 d (bit_or (bit_or (shl 64 a 0) (shl 64 b 8)) (shl 64 c 16))
            (shl 64 d 24) (omega arith) (omega (arith, f1, f2)) in
        let f4 =
          bit_or-add_high 32 e
            (bit_or (bit_or (bit_or (shl 64 a 0) (shl 64 b 8)) (shl 64 c 16)) (shl 64 d 24))
            (shl 64 e 32) (omega arith) (omega (arith, f1, f2, f3)) in
        let f5 =
          bit_or-add_high 40 f
            (bit_or (bit_or (bit_or (bit_or (shl 64 a 0) (shl 64 b 8)) (shl 64 c 16)) (shl 64 d 24))
              (shl 64 e 32))
            (shl 64 f 40) (omega arith) (omega (arith, f1, f2, f3, f4)) in
        let f6 =
          bit_or-add_high 48 g
            (bit_or
              (bit_or
                (bit_or (bit_or (bit_or (shl 64 a 0) (shl 64 b 8)) (shl 64 c 16)) (shl 64 d 24))
                (shl 64 e 32))
              (shl 64 f 40))
            (shl 64 g 48) (omega arith) (omega (arith, f1, f2, f3, f4, f5)) in
        let f7 =
          bit_or-add_high 56 h
            (bit_or
              (bit_or
                (bit_or
                  (bit_or (bit_or (bit_or (shl 64 a 0) (shl 64 b 8)) (shl 64 c 16)) (shl 64 d 24))
                  (shl 64 e 32))
                (shl 64 f 40))
              (shl 64 g 48))
            (shl 64 h 56) (omega arith) (omega (arith, f1, f2, f3, f4, f5, f6)) in
        omega (arith, f1, f2, f3, f4, f5, f6, f7))

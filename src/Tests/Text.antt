-- ===== src/Tests/Text.antt =====
-- The texts on concrete numbers and paths.
use hathor_ledger_app.Format.Signed.{negsuc, format_i64, format_i64-decimal}
use hathor_ledger_app.Format.Fixed.{zeros, format_fpu64, format_fpu64-read}
use hathor_ledger_app.Prelude.{
  replicate, ◌-◌, ◌<◌, ℕ, ◌≡◌, ◌+◌, ◌++◌, ◌∷◌, List, [], some, All, length, arith,
}
use hathor_ledger_app.Format.{codes, format_u64, itoa, itoa_digits, swap_ends, format_value}
use hathor_ledger_app.Format.Decimal.{low_digits, decimal, read_decimal, format_u64-decimal}
use hathor_ledger_app.Format.Amount.{format_value-text}
use hathor_ledger_app.Format.Digits.{IsDigit, format_u64-itoa}
use hathor_ledger_app.Result.{ok, fault}
use hathor_ledger_app.Bip32.Format.{bip32_path_format}
use hathor_ledger_app.Bip32.Format.Path.{
  read_path, bip32_path_format-read, bip32_path_format-truncated,
}

format_u64-decimal_example :
    (format_u64 35 1234 ≡ ok (some (codes "1234"))) × (read_decimal (codes "1234") ≡ 1234)
unfolding decimal low_digits
format_u64-decimal_example = format_u64-decimal 35 1234 (omega arith) (omega arith)

-- A buffer of one byte, and a number of one digit.
format_u64_past_end : format_u64 1 7 ≡ fault
unfolding decimal low_digits
format_u64_past_end = (format_u64-decimal 1 7 (omega arith) (omega arith)).0

format_u64-itoa_example : format_u64 11 1234 ≡ ok (some (codes "1234"))
unfolding itoa itoa_digits swap_ends
format_u64-itoa_example = format_u64-itoa 11 1234 (omega arith) (omega arith)

format_value-text_example :
    (format_value 123456709 ≡ codes "1,234,567.09")
    × All IsDigit (codes "1234567")
    × (read_decimal (codes "1234567") ≡ 1234567)
unfolding decimal low_digits
format_value-text_example = format_value-text 123456709 (omega arith)

-- m/44'/280'/0'/0/7
abbrev path : List ℕ
path = 0x8000002C ∷ 0x80000118 ∷ 0x80000000 ∷ 0 ∷ 7 ∷ []

bip32_path_format-read_example :
    (bip32_path_format path 5 60 ≡ some (codes "44'/280'/0'/0/7"))
    × (read_path 0 0 (codes "44'/280'/0'/0/7") ≡ path)
unfolding decimal low_digits
bip32_path_format-read_example =
    bip32_path_format-read path 5 60 (omega arith) (omega arith) (omega arith)
      (omega arith, (omega arith, (omega arith, (omega arith, (omega arith, tt))))) (omega arith)

bip32_path_format-truncated_example : bip32_path_format (1234 ∷ []) 1 3 ≡ some (codes "12")
unfolding decimal low_digits
bip32_path_format-truncated_example =
    bip32_path_format-truncated 1234 3 (omega arith) (omega arith) (omega arith)

format_i64-decimal_example : format_i64 21 (negsuc 1233) ≡ some (codes "-1234")
unfolding decimal low_digits
format_i64-decimal_example = format_i64-decimal 21 (negsuc 1233) (omega arith) (omega arith)

format_fpu64-read_example :
    (whole : List ℕ) × (fraction : List ℕ) × (format_fpu64 (replicate 40 0) 100000001 8
      ≡ some (whole ++ (b'.' ∷ (fraction ++ zeros (40 - (length whole + 1 + length fraction))))))
    × (0 < length whole)
    × (length fraction ≡ 8)
    × All IsDigit (whole ++ fraction)
    × (read_decimal (whole ++ fraction) ≡ 100000001)
format_fpu64-read_example = format_fpu64-read 40 100000001 8 (omega arith) (omega arith)

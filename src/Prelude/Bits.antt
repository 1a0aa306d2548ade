-- ===== src/Prelude/Bits.antt =====
-- The bitwise operations at variables: `|` of disjoint fields adds, `&` of a mask of ones is `%`.
use Prim.Native.Nat.{
  ℕ, zero, suc, ◌+◌, ◌-◌, ◌*◌, ◌/◌, ◌%◌, ◌^◌, ◌≤◌, ◌<◌, max, min, bit_or, bit_and, digits,
  bit_or-bitwise, bit_and-bitwise,
}
use mathlib.Core.Path.{◌≡◌, refl, ap, ◌∙◌}
use native.Mathlib.Nat.{
  pow-suc, div-add-mod', mod-lt, div-div-eq-div-mul, mod-eq_of_lt, mul-add-mod_self_right,
}
use native.Mathlib.Omega.{arith}

-- Fuel beyond the first argument changes nothing.
digits_fuel :
    (f : ℕ → ℕ) (g : ℕ → ℕ → ℕ) (k l x y : ℕ) → x ≤ k → x ≤ l → digits f g k x y ≡ digits f g l x y
digits_fuel f g zero zero x y h e = refl
digits_fuel f g zero (suc l) zero y h e = refl
digits_fuel f g zero (suc l) (suc x) y h e = absurd (omega arith)
digits_fuel f g (suc k) zero zero y h e = refl
digits_fuel f g (suc k) zero (suc x) y h e = absurd (omega arith)
digits_fuel f g (suc k) (suc l) zero y h e = refl
digits_fuel f g (suc k) (suc l) (suc x) y h e =
    let rest = digits_fuel f g k l (suc x / 2) (y / 2) (omega arith) (omega arith) in
    ap (λ r. r * 2 + g (suc x % 2) (y % 2)) rest

zero-bit_or : (y : ℕ) → bit_or 0 y ≡ y
zero-bit_or y = bit_or-bitwise 0 y

zero-bit_and : (y : ℕ) → bit_and 0 y ≡ 0
zero-bit_and y = bit_and-bitwise 0 y

bit_or_step : (x y : ℕ) → bit_or x y ≡ bit_or (x / 2) (y / 2) * 2 + max (x % 2) (y % 2)
bit_or_step zero y = omega (arith, zero-bit_or y, zero-bit_or (y / 2))
bit_or_step (suc x) y =
    let fuel =
      digits_fuel (λ b. b) max x (suc x / 2) (suc x / 2) (y / 2) (omega arith) (omega arith) in
    omega (arith, bit_or-bitwise (suc x) y, bit_or-bitwise (suc x / 2) (y / 2))

bit_and_step : (x y : ℕ) → bit_and x y ≡ bit_and (x / 2) (y / 2) * 2 + min (x % 2) (y % 2)
bit_and_step zero y = omega (arith, zero-bit_and y, zero-bit_and (y / 2))
bit_and_step (suc x) y =
    let fuel =
      digits_fuel (λ b. zero) min x (suc x / 2) (suc x / 2) (y / 2) (omega arith) (omega arith) in
    omega (arith, bit_and-bitwise (suc x) y, bit_and-bitwise (suc x / 2) (y / 2))

bit_or-zero_fuel : (k x : ℕ) → x ≤ k → bit_or x 0 ≡ x
bit_or-zero_fuel k zero h = refl
bit_or-zero_fuel zero (suc x) h = absurd (omega arith)
bit_or-zero_fuel (suc k) (suc x) h =
    omega (arith, bit_or_step (suc x) 0, bit_or-zero_fuel k (suc x / 2) (omega arith))

bit_and-zero_fuel : (k x : ℕ) → x ≤ k → bit_and x 0 ≡ 0
bit_and-zero_fuel k zero h = refl
bit_and-zero_fuel zero (suc x) h = absurd (omega arith)
bit_and-zero_fuel (suc k) (suc x) h =
    let half = bit_and-zero_fuel k (suc x / 2) (omega arith) in
    omega (arith, bit_and_step (suc x) 0)

pub bit_or-zero : (a : ℕ) → bit_or a 0 ≡ a
bit_or-zero a = bit_or-zero_fuel a a (omega arith)

mul_double : (q k : ℕ) → q * (k * 2) ≡ q * k * 2
mul_double q k = omega arith

mod_double : (a k : ℕ) → 0 < k → a % (k * 2) ≡ a / 2 % k * 2 + a % 2
mod_double a k p =
    let r : ℕ = a / 2 % k * 2 + a % 2 in
    let e : a ≡ a / 2 / k * (k * 2) + r =
      omega (arith, div-add-mod' (a / 2) k, mul_double (a / 2 / k) k) in
    let small : r < k * 2 = omega (arith, mod-lt (a / 2) p) in
    ap (λ x. x % (k * 2)) e ∙ mul-add-mod_self_right (a / 2 / k) (k * 2) r ∙ mod-eq_of_lt small

or_double : (x b : ℕ) → bit_or x (b / 2) ≡ x + b / 2 → bit_or (x * 2) b ≡ x * 2 + b
or_double x b e =
    let h : x * 2 / 2 ≡ x = omega arith in
    ground (arith, bit_or_step (x * 2) b, h, ap (λ y. bit_or y (b / 2)) h)

-- A field shifted past `k` bits does not meet one of `k` bits.
pub bit_or-shifted : (k a b : ℕ) → b < 2 ^ k → bit_or (a * 2 ^ k) b ≡ a * 2 ^ k + b
bit_or-shifted zero a b h =
    let e : b ≡ 0 = omega arith in rw e (bit_or-zero (a * 2 ^ 0) ∙ omega arith)
bit_or-shifted (suc k) a b h =
    let e : a * 2 ^ suc k ≡ a * 2 ^ k * 2 = rw pow-suc (omega arith) in
    rw e (or_double (a * 2 ^ k) b (bit_or-shifted k a (b / 2) (omega (arith, pow-suc 2 k))))

-- `x & (2^k - 1)`, one bit more.
bit_and_bit :
    (a m k : ℕ) → 0 < k → bit_and (a / 2) m ≡ a / 2 % k → bit_and a (m * 2 + 1) ≡ a % (k * 2)
bit_and_bit a m k p e =
    let h : (m * 2 + 1) / 2 ≡ m = omega arith in
    ground (arith, bit_and_step a (m * 2 + 1), h, ap (λ y. bit_and (a / 2) y) h, mod_double a k p)

two_pow_pos : (k : ℕ) → 0 < 2 ^ k
two_pow_pos zero = omega arith
two_pow_pos (suc k) = omega (arith, pow-suc 2 k, two_pow_pos k)

-- `x & (2^k - 1)`.
pub bit_and-ones : (k a : ℕ) → bit_and a (2 ^ k - 1) ≡ a % 2 ^ k
bit_and-ones zero a = bit_and-zero_fuel a a (omega arith) ∙ omega arith
bit_and-ones (suc k) a =
    let e : 2 ^ suc k - 1 ≡ (2 ^ k - 1) * 2 + 1 = omega (arith, pow-suc 2 k, two_pow_pos k) in
    rw (e, pow-suc) (bit_and_bit a (2 ^ k - 1) (2 ^ k) (two_pow_pos k) (bit_and-ones k (a / 2)))

bit_and_even : (a m : ℕ) → bit_and a (m * 2) ≡ bit_and (a / 2) m * 2
bit_and_even a m =
    let h : m * 2 / 2 ≡ m = omega arith in
    ground (arith, bit_and_step a (m * 2), h, ap (λ y. bit_and (a / 2) y) h)

-- `x & 2^k`.
pub bit_and-power : (k a : ℕ) → bit_and a (2 ^ k) ≡ a / 2 ^ k % 2 * 2 ^ k
bit_and-power zero a = bit_and-ones 1 a ∙ omega arith
bit_and-power (suc k) a =
    let shift : a / 2 / 2 ^ k ≡ a / 2 ^ suc k =
      div-div-eq-div-mul a 2 (2 ^ k) ∙ ap (λ y. a / y) (omega (arith, pow-suc 2 k)) in
    let ih : bit_and (a / 2) (2 ^ k) ≡ a / 2 ^ suc k % 2 * 2 ^ k =
      bit_and-power k (a / 2) ∙ ap (λ y. y % 2 * 2 ^ k) shift in
    ap (bit_and a) (pow-suc 2 k)
    ∙ bit_and_even a (2 ^ k)
    ∙ ap (λ y. y * 2) ih
    ∙ omega (arith, ap (λ y. a / 2 ^ suc k % 2 * y) (pow-suc 2 k))

-- The same, with the shifted field as any number of that form.
pub bit_or-add : (k a x b : ℕ) → x ≡ a * 2 ^ k → b < 2 ^ k → bit_or x b ≡ x + b
bit_or-add k a x b e h = rw e (bit_or-shifted k a b h)

double_or : (x b : ℕ) → bit_or (x / 2) b ≡ x / 2 + b → bit_or x (b * 2) ≡ x + b * 2
double_or x b e =
    let h : b * 2 / 2 ≡ b = omega arith in
    ground (arith, bit_or_step x (b * 2), h, ap (bit_or (x / 2)) h)

shifted-bit_or : (k x a : ℕ) → x < 2 ^ k → bit_or x (a * 2 ^ k) ≡ x + a * 2 ^ k
shifted-bit_or zero x a h =
    let e : x ≡ 0 = omega arith in rw e (zero-bit_or (a * 2 ^ 0) ∙ omega arith)
shifted-bit_or (suc k) x a h =
    let e : a * 2 ^ suc k ≡ a * 2 ^ k * 2 = rw pow-suc (omega arith) in
    rw e (double_or x (a * 2 ^ k) (shifted-bit_or k (x / 2) a (omega (arith, pow-suc 2 k))))

-- The same with the shifted field on the right.
pub bit_or-add_high : (k a x b : ℕ) → b ≡ a * 2 ^ k → x < 2 ^ k → bit_or x b ≡ x + b
bit_or-add_high k a x b e h = rw e (shifted-bit_or k x a h)

-- ===== src/Prelude/Bits.antt =====
-- The lowest digits of `&` and `|` at variables.
use Prim.Native.Nat.{
  ℕ, zero, suc, ◌+◌, ◌*◌, ◌/◌, ◌%◌, ◌≤◌, ◌<◌, ◌-◌, ◌^◌, min, max, bit_and, bit_or, digits, bitwise,
  bit_and-bitwise, bit_or-bitwise,
}
use mathlib.Core.Path.{◌≡◌, refl, sym, ap, ◌∙◌}
use native.Mathlib.Omega.{arith}
use native.Mathlib.Nat.{pow-suc, one-le-pow}

-- Fuel beyond the first number changes nothing.
digits_stable :
    (tail : ℕ → ℕ) (op : ℕ → ℕ → ℕ) (x y little big : ℕ)
    → x ≤ little
    → little ≤ big
    → digits tail op big x y ≡ digits tail op little x y
digits_stable tail op (suc x) y (suc little) (suc big) enough more =
    ap (λ d. d * 2 + op (suc x % 2) (y % 2))
      (digits_stable tail op (suc x / 2) (y / 2) little big (omega arith) (omega arith))
digits_stable tail op (suc x) y zero big enough more = absurd (omega arith)
digits_stable tail op (suc x) y (suc little) zero enough more = absurd (omega arith)
digits_stable tail op zero y zero zero enough more = refl
digits_stable tail op zero y zero (suc big) enough more = refl
digits_stable tail op zero y (suc little) zero enough more = absurd (omega arith)
digits_stable tail op zero y (suc little) (suc big) enough more = refl

-- A binary operation splits off its lowest digit.
low_digit :
    (tail : ℕ → ℕ) (op : ℕ → ℕ → ℕ) (x y : ℕ)
    → bitwise tail op (suc x) y ≡ bitwise tail op (suc x / 2) (y / 2) * 2 + op (suc x % 2) (y % 2)
low_digit tail op x y =
    ap (λ d. d * 2 + op (suc x % 2) (y % 2))
      (digits_stable tail op (suc x / 2) (y / 2) (suc x / 2) x (omega arith) (omega arith))

pub bit_and-halves : (x y : ℕ) → bit_and x y ≡ bit_and (x / 2) (y / 2) * 2 + min (x % 2) (y % 2)
bit_and-halves (suc x) y =
    bit_and-bitwise (suc x) y
    ∙ (low_digit (λ _. zero) min x y
        ∙ ap (λ d. d * 2 + min (suc x % 2) (y % 2)) (sym (bit_and-bitwise (suc x / 2) (y / 2))))
bit_and-halves zero y = omega (arith, bit_and-bitwise zero y, bit_and-bitwise zero (y / 2))

pub bit_or-halves : (x y : ℕ) → bit_or x y ≡ bit_or (x / 2) (y / 2) * 2 + max (x % 2) (y % 2)
bit_or-halves (suc x) y =
    bit_or-bitwise (suc x) y
    ∙ (low_digit (λ d. d) max x y
        ∙ ap (λ d. d * 2 + max (suc x % 2) (y % 2)) (sym (bit_or-bitwise (suc x / 2) (y / 2))))
bit_or-halves zero y = omega (arith, bit_or-bitwise zero y, bit_or-bitwise zero (y / 2))

bit_or-zero_below : (n a : ℕ) → a ≤ n → bit_or a 0 ≡ a
bit_or-zero_below n zero h = refl
bit_or-zero_below zero (suc a) h = absurd (omega arith)
bit_or-zero_below (suc n) (suc a) h =
    omega (arith, bit_or-halves (suc a) 0, bit_or-zero_below n (suc a / 2) (omega arith))

pub zero-bit_or : (a : ℕ) → bit_or 0 a ≡ a
zero-bit_or a = bit_or-bitwise 0 a

bit_and-zero_below : (n a : ℕ) → a ≤ n → bit_and a 0 ≡ 0
bit_and-zero_below n zero h = refl
bit_and-zero_below zero (suc a) h = absurd (omega arith)
bit_and-zero_below (suc n) (suc a) h =
    omega (arith, bit_and-halves (suc a) 0, bit_and-zero_below n (suc a / 2) (omega arith))

shift_step : (q k : ℕ) → q * 2 ^ suc k ≡ 2 * (q * 2 ^ k)
shift_step q k = omega (arith, ap (λ (t : ℕ). q * t) (pow-suc 2 k))

-- `(q << k) | r` is a sum where r fits the k bits that the shift frees, and so the other way round.
pub shifted-bit_or : (k q r : ℕ) → r < 2 ^ k → bit_or (q * 2 ^ k) r ≡ q * 2 ^ k + r
shifted-bit_or zero q r h = ground (arith, bit_or-zero_below q q (omega arith))
shifted-bit_or (suc k) q r h = ground (
  arith,
  bit_or-halves (q * 2 ^ suc k) r,
  shift_step q k,
  pow-suc 2 k,
  shifted-bit_or k q (r / 2) (omega (arith, pow-suc 2 k)),
)

pub bit_or-shifted : (k q r : ℕ) → r < 2 ^ k → bit_or r (q * 2 ^ k) ≡ q * 2 ^ k + r
bit_or-shifted zero q r h = ground (arith, zero-bit_or q)
bit_or-shifted (suc k) q r h = ground (
  arith,
  bit_or-halves r (q * 2 ^ suc k),
  shift_step q k,
  pow-suc 2 k,
  bit_or-shifted k q (r / 2) (omega (arith, pow-suc 2 k)),
)

masked : (k q r : ℕ) → r < 2 ^ k → bit_and (q * 2 ^ k + r) (2 ^ k - 1) ≡ r
masked zero q r h = rw (bit_and-zero_below (q * 1 + r) (q * 1 + r) (omega arith)) (omega arith)
masked (suc k) q r h = ground (
  arith,
  bit_and-halves (q * 2 ^ suc k + r) (2 ^ suc k - 1),
  shift_step q k,
  pow-suc 2 k,
  one-le-pow k 2,
  masked k q (r / 2) (omega (arith, pow-suc 2 k)),
)

-- A mask of the k low bits is the remainder by 2 ^ k.
pub bit_and-low_mask : (k a : ℕ) → bit_and a (2 ^ k - 1) ≡ a % 2 ^ k
bit_and-low_mask k a = ground (arith, one-le-pow k 2, masked k (a / 2 ^ k) (a % 2 ^ k))

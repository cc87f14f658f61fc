-- ===== src/Base/Bits.antt =====
-- Bitwise `and` with a mask is a remainder; `xor` stays inside the width of its
-- arguments.
use Prim.Native.Nat.{
  ℕ, zero, suc, ◌+◌, ◌-◌, ◌*◌, ◌/◌, ◌%◌, ◌^◌, ◌≤◌, ◌<◌, min, bit_and, bit_xor, digits, differ,
  bit_and-bitwise, bit_xor-bitwise,
}
use mathlib.Core.Path.{◌≡◌, sym, ap, ap₂, ◌∙◌}
use native.Mathlib.Nat.{pow-suc, div-add-mod', mul-add-mod_self_right, mod-eq_of_lt, mod-lt}
use native.Mathlib.Omega.{arith}

pub pow_pos : (k : ℕ) → 0 < 2 ^ k
pow_pos zero = omega arith
pow_pos (suc k) = omega (arith, pow_pos k, pow-suc 2 k)

half-mod : (a m : ℕ) → 0 < m → a % (m * 2) ≡ a / 2 % m * 2 + a % 2
half-mod a m h =
    ap (λ t. t % (m * 2)) whole
    ∙ mul-add-mod_self_right (a / 2 / m) (m * 2) low
    ∙ mod-eq_of_lt small
  where
    low : ℕ
    low = a / 2 % m * 2 + a % 2

    whole : a ≡ a / 2 / m * (m * 2) + low
    whole = omega (arith, div-add-mod' (a / 2) m)

    small : low < m * 2
    small = omega (arith, mod-lt (a / 2) h)

-- The low digits of `a`, digit by digit of the mask, for as many rounds as `a` may need.
low_digits : (rounds k a : ℕ) → a ≤ rounds → digits (λ rest. 0) min rounds a (2 ^ k - 1) ≡ a % 2 ^ k
low_digits zero k a h = empty k a (omega arith)
  where
    empty : (k a : ℕ) → a ≡ 0 → 0 ≡ a % 2 ^ k
    empty k a none = sym (ap (λ x. x % 2 ^ k) none ∙ mod-eq_of_lt (pow_pos k))
low_digits (suc rounds) k zero h = sym (mod-eq_of_lt (pow_pos k))
low_digits (suc rounds) zero (suc a) h =
    omega (arith, low_digits rounds zero (suc a / 2) (omega arith))
low_digits (suc rounds) (suc k) (suc a) h =
    ap₂ (λ rest digit. digits (λ y. 0) min rounds (suc a / 2) rest * 2 + digit) rest digit
    ∙ ap (λ high. high * 2 + suc a % 2) (low_digits rounds k (suc a / 2) (omega arith))
    ∙ sym (half-mod (suc a) (2 ^ k) (pow_pos k))
    ∙ ap (λ m. suc a % m) (sym (pow-suc 2 k))
  where
    rest : (2 ^ suc k - 1) / 2 ≡ 2 ^ k - 1
    rest = omega (arith, pow-suc 2 k, pow_pos k)

    digit : min (suc a % 2) ((2 ^ suc k - 1) % 2) ≡ suc a % 2
    digit = omega (arith, pow-suc 2 k, pow_pos k)

-- A mask of `k` ones keeps the `k` low digits.
pub bit_and-mask : (k a : ℕ) → bit_and a (2 ^ k - 1) ≡ a % 2 ^ k
bit_and-mask k a = bit_and-bitwise a (2 ^ k - 1) ∙ low_digits a k a (omega arith)

differ-le : (x y : ℕ) → x ≤ 1 → y ≤ 1 → differ x y ≤ 1
differ-le zero y p q = q
differ-le (suc x) zero p q = p
differ-le (suc x) (suc y) p q = differ-le x y (omega arith) (omega arith)

digits-lt : (k n a b : ℕ) → a < 2 ^ k → b < 2 ^ k → digits (λ y. y) differ n a b < 2 ^ k
digits-lt k zero a b p q = q
digits-lt k (suc n) zero b p q = q
digits-lt zero (suc n) (suc a) b p q = absurd (omega arith)
digits-lt (suc k) (suc n) (suc a) b p q = omega (
  arith,
  pow-suc 2 k,
  digits-lt k n (suc a / 2) (b / 2) (omega (arith, pow-suc 2 k)) (omega (arith, pow-suc 2 k)),
  differ-le (suc a % 2) (b % 2) (omega arith) (omega arith),
)

-- Exclusive or of two words is a word.
pub bit_xor-lt : (k a b : ℕ) → a < 2 ^ k → b < 2 ^ k → bit_xor a b < 2 ^ k
bit_xor-lt k a b p q = rw (bit_xor-bitwise a b) (digits-lt k a a b p q)

-- ===== src/Prelude/Bits.antt =====
-- The bit operations that the program uses, as facts at variables. Each native operation stands for
-- a recursion on binary digits with fuel; the fuel is dropped first.
use Prim.Native.Nat.{
  ℕ, zero, suc, ◌+◌, ◌*◌, ◌/◌, ◌%◌, ◌≤◌, ◌<◌, ◌^◌, max, digits, differ, bit_or, bit_xor,
  bit_or-bitwise, bit_xor-bitwise,
}
use mathlib.Core.Path.{◌≡◌, refl, ap}
use native.Mathlib.Nat.{le_refl, pow-suc}
use native.Mathlib.Omega.{arith}

-- The digits' operation `f`, with what is left of the second number where the first has run out.
abbrev digitwise : (ℕ → ℕ → ℕ) → ℕ → ℕ → ℕ → ℕ
digitwise f = digits (λ rest. rest) f

-- Any count of digits that the first number needs gives what the operation stands for.
settled :
    (f : ℕ → ℕ → ℕ) (bound count x y : ℕ)
    → count ≤ bound
    → x ≤ count
    → digitwise f count x y ≡ digitwise f x x y
settled f bound zero zero y low enough = refl
settled f bound zero (suc x) y low enough = absurd (omega arith)
settled f bound (suc count) zero y low enough = refl
settled f zero (suc count) (suc x) y low enough = absurd (omega arith)
settled f (suc bound) (suc count) (suc x) y low enough = omega (
  arith,
  settled f bound count (suc x / 2) (y / 2) (omega arith) (omega arith),
  settled f bound x (suc x / 2) (y / 2) (omega arith) (omega arith),
)

lowest_digit :
    (f : ℕ → ℕ → ℕ) (x y : ℕ)
    → digitwise f (suc x) (suc x) y
      ≡ digitwise f (suc x / 2) (suc x / 2) (y / 2) * 2 + f (suc x % 2) (y % 2)
lowest_digit f x y = omega (arith, settled f x x (suc x / 2) (y / 2) (le_refl x) (omega arith))

-- `|` takes the larger of the two lowest digits.
bit_or_step : (x y : ℕ) → bit_or x y ≡ bit_or (x / 2) (y / 2) * 2 + max (x % 2) (y % 2)
bit_or_step zero y = rw bit_or-bitwise (omega (arith, bit_or-bitwise (zero / 2) (y / 2)))
bit_or_step (suc x) y =
    rw bit_or-bitwise (omega (arith, lowest_digit max x y, bit_or-bitwise (suc x / 2) (y / 2)))

-- The sum of two binary digits without its carry.
bit_xor_step : (x y : ℕ) → bit_xor x y ≡ bit_xor (x / 2) (y / 2) * 2 + differ (x % 2) (y % 2)
bit_xor_step zero y = rw bit_xor-bitwise (omega (arith, bit_xor-bitwise (zero / 2) (y / 2)))
bit_xor_step (suc x) y =
    rw bit_xor-bitwise (omega (arith, lowest_digit differ x y, bit_xor-bitwise (suc x / 2) (y / 2)))

differ_zero : (x y : ℕ) → x < 2 → y < 2 → differ x y ≡ 0 → x ≡ y
differ_zero zero y hx hy e = omega arith
differ_zero (suc zero) zero hx hy e = omega arith
differ_zero (suc zero) (suc zero) hx hy e = refl
differ_zero (suc zero) (suc (suc y)) hx hy e = absurd (omega arith)
differ_zero (suc (suc x)) y hx hy e = absurd (omega arith)

differ_self : (x : ℕ) → differ x x ≡ 0
differ_self zero = refl
differ_self (suc x) = differ_self x

differ_one : (x : ℕ) → x < 2 → differ x 1 + x ≡ 1
differ_one zero h = refl
differ_one (suc zero) h = refl
differ_one (suc (suc x)) h = absurd (omega arith)

differ-lt : (x y : ℕ) → x < 2 → y < 2 → differ x y < 2
differ-lt zero y hx hy = hy
differ-lt (suc zero) zero hx hy = omega arith
differ-lt (suc zero) (suc zero) hx hy = omega arith
differ-lt (suc zero) (suc (suc y)) hx hy = absurd (omega arith)
differ-lt (suc (suc x)) y hx hy = absurd (omega arith)

-- The result has no more digits than the operands.
pub bit_xor-lt : (k a b : ℕ) → a < 2 ^ k → b < 2 ^ k → bit_xor a b < 2 ^ k
bit_xor-lt zero zero b ha hb = omega (arith, bit_xor-bitwise 0 b)
bit_xor-lt zero (suc a) b ha hb = absurd (omega arith)
bit_xor-lt (suc k) a b ha hb = omega (
  arith,
  bit_xor_step a b,
  bit_xor-lt k (a / 2) (b / 2) (omega (arith, pow-suc 2 k)) (omega (arith, pow-suc 2 k)),
  differ-lt (a % 2) (b % 2) (omega arith) (omega arith),
  pow-suc 2 k,
)

-- The recursions below go from `a / 2` to `a`, on a bound.
xor_self : (n a : ℕ) → a ≤ n → bit_xor a a ≡ 0
xor_self n zero h = refl
xor_self zero (suc a) h = absurd (omega arith)
xor_self (suc n) (suc a) h = omega (
  arith,
  bit_xor_step (suc a) (suc a),
  xor_self n (suc a / 2) (omega arith),
  differ_self (suc a % 2),
)

pub bit_xor_self : (a : ℕ) → bit_xor a a ≡ 0
bit_xor_self a = xor_self a a (le_refl a)

xor_zero : (n a b : ℕ) → a ≤ n → bit_xor a b ≡ 0 → a ≡ b
xor_zero n zero b h e = omega (arith, bit_xor-bitwise 0 b)
xor_zero zero (suc a) b h e = absurd (omega arith)
xor_zero (suc n) (suc a) b h e = omega (
  arith,
  bit_xor_step (suc a) b,
  xor_zero n (suc a / 2) (b / 2) (omega arith) (omega (arith, bit_xor_step (suc a) b)),
  differ_zero (suc a % 2) (b % 2) (omega arith) (omega arith)
      (omega (arith, bit_xor_step (suc a) b)),
)

pub bit_xor-eq-zero : (a b : ℕ) → bit_xor a b ≡ 0 → a ≡ b
bit_xor-eq-zero a b e = xor_zero a a b (le_refl a) e

or_zero : (n a b : ℕ) → a ≤ n → bit_or a b ≡ 0 → (a ≡ 0) × (b ≡ 0)
or_zero n zero b h e = omega (arith, bit_or-bitwise 0 b)
or_zero zero (suc a) b h e = absurd (omega arith)
or_zero (suc n) (suc a) b h e = omega (
  arith,
  bit_or_step (suc a) b,
  or_zero n (suc a / 2) (b / 2) (omega arith) (omega (arith, bit_or_step (suc a) b)),
)

-- An accumulated difference is zero only where each part of it is.
pub bit_or-eq-zero : (a b : ℕ) → bit_or a b ≡ 0 → (a ≡ 0) × (b ≡ 0)
bit_or-eq-zero a b e = or_zero a a b (le_refl a) e

bit_xor-zero : (n a : ℕ) → a ≤ n → bit_xor a 0 ≡ a
bit_xor-zero n zero h = refl
bit_xor-zero zero (suc a) h = absurd (omega arith)
bit_xor-zero (suc n) (suc a) h = omega (
  arith,
  bit_xor_step (suc a) 0,
  bit_xor-zero n (suc a / 2) (omega arith),
  differ-zero (suc a % 2),
)
  where
    differ-zero : (x : ℕ) → differ x 0 ≡ x
    differ-zero zero = refl
    differ-zero (suc x) = refl

-- `node ^ 1` is the other child of the parent of `node`.
pub bit_xor_one : (a : ℕ) → bit_xor a 1 + 2 * (a % 2) ≡ a + 1
bit_xor_one a = omega (
  arith,
  bit_xor_step a 1,
  bit_xor-zero (a / 2) (a / 2) (le_refl _),
  differ_one (a % 2) (omega arith),
)

bit_or-zero : (n a : ℕ) → a ≤ n → bit_or a 0 ≡ a
bit_or-zero n zero h = refl
bit_or-zero zero (suc a) h = absurd (omega arith)
bit_or-zero (suc n) (suc a) h =
    omega (arith, bit_or_step (suc a) 0, bit_or-zero n (suc a / 2) (omega arith))

-- `(q << k) | r` is a sum where `r` fits the `k` bits.
pub bit_or_fields : (k q r : ℕ) → r < 2 ^ k → bit_or (q * 2 ^ k) r ≡ q * 2 ^ k + r
bit_or_fields zero q r h = ground (arith, bit_or-zero q q (le_refl q))
bit_or_fields (suc k) q r h = ground (
  arith,
  bit_or_step (q * 2 ^ suc k) r,
  two_pow k,
  scaled k,
  bit_or_fields k q (r / 2) (omega (arith, two_pow k)),
)
  where
    two_pow : (j : ℕ) → 2 ^ suc j ≡ 2 * 2 ^ j
    two_pow j = omega (arith, pow-suc 2 j)

    scaled : (j : ℕ) → q * 2 ^ suc j ≡ 2 * (q * 2 ^ j)
    scaled j = omega (arith, ap (λ (t : ℕ). q * t) (two_pow j))

-- ===== src/Codec/Compare.antt =====
-- What `constantTimeEqual` of ProtocolConstants.h decides.
use post_quantum_uav_uav.Prelude.{
  ℕ, zero, suc, ◌%◌, ◌≤◌, ◌<◌, ◌≡◌, refl, ◌∙◌, ◌↔◌, true, arith, List, [], ◌∷◌, All, length, take,
  drop, bit_or, bit_xor, ==_iff,
}
use post_quantum_uav_uav.Prelude.Bits.{bit_xor-lt, bit_xor_self, bit_xor-eq-zero, bit_or-eq-zero}
use post_quantum_uav_uav.Codec.{IsByte, byte_at, differences, constant_time_equal}

byte_xor_zero : (a b : ℕ) → a < 256 → b < 256 → bit_xor a b % 256 ≡ 0 → a ≡ b
byte_xor_zero a b ha hb e = bit_xor-eq-zero a b (omega (arith, bit_xor-lt 8 a b ha hb))

-- The accumulated difference is zero only if it was, and the prefixes agree.
differences_zero :
    (n : ℕ) (left right : List ℕ) (difference : ℕ)
    → n ≤ length left
    → n ≤ length right
    → All IsByte left
    → All IsByte right
    → differences n left right difference ≡ 0
    → (difference ≡ 0) × (take n left ≡ take n right)
unfolding differences
differences_zero zero left right d hl hr bl br e = (e, refl)
differences_zero (suc n) [] right d hl hr bl br e = absurd (omega arith)
differences_zero (suc n) (x ∷ left) [] d hl hr bl br e = absurd (omega arith)
differences_zero (suc n) (x ∷ left) (y ∷ right) d hl hr bl br e =
    let rest =
      differences_zero n left right (bit_or d (bit_xor x y % 256)) (omega arith) (omega arith) bl.1
        br.1 e in
    let parts = bit_or-eq-zero d (bit_xor x y % 256) rest.0 in
    let same : x ≡ y = byte_xor_zero x y bl.0 br.0 parts.1 in (parts.0, cc (same, rest.1))

differences_self : (n : ℕ) (bytes : List ℕ) → differences n bytes bytes 0 ≡ 0
unfolding differences
differences_self zero bytes = refl
differences_self (suc n) bytes =
    rw (bit_xor_self (byte_at bytes 0)) (differences_self n (drop 1 bytes))

-- Equal arrays compare equal.
pub constant_time_equal_refl : (bytes : List ℕ) (n : ℕ) → constant_time_equal bytes bytes n ≡ true
unfolding constant_time_equal
constant_time_equal_refl bytes n = (==_iff _ 0).1 (differences_self n bytes)

differences-take :
    (n : ℕ) (left right : List ℕ) (d : ℕ)
    → n ≤ length left
    → n ≤ length right
    → take n left ≡ take n right
    → differences n left right d ≡ differences n left left d
unfolding differences
differences-take zero left right d hl hr e = refl
differences-take (suc n) [] right d hl hr e = absurd (omega arith)
differences-take (suc n) (x ∷ left) [] d hl hr e = absurd (omega arith)
differences-take (suc n) (x ∷ left) (y ∷ right) d hl hr e =
    let same : x ≡ y = cc in
    rw same (
      differences-take n left right (bit_or d (bit_xor y y % 256)) (omega arith) (omega arith) (cc))

pub constant_time_equal-take :
    (left right : List ℕ) (n : ℕ)
    → n ≤ length left
    → n ≤ length right
    → take n left ≡ take n right
    → constant_time_equal left right n ≡ true
unfolding constant_time_equal
constant_time_equal-take left right n hl hr e =
    (==_iff _ 0).1 (differences-take n left right 0 hl hr e ∙ differences_self n left)

-- For arrays of bytes that hold at least `n` each, the comparison of `n` bytes answers true exactly
-- when the first `n` bytes agree.
pub constant_time_equal_iff :
    (left right : List ℕ) (n : ℕ)
    → n ≤ length left
    → n ≤ length right
    → All IsByte left
    → All IsByte right
    → (constant_time_equal left right n ≡ true) ↔ (take n left ≡ take n right)
unfolding constant_time_equal
constant_time_equal_iff left right n hl hr bl br = (
  λ h. (differences_zero n left right 0 hl hr bl br ((==_iff _ 0).0 h)).1,
  constant_time_equal-take left right n hl hr,
)

-- ===== src/Lms/Checksum.antt =====
-- The checksum of LmotsLms.cpp: no message's chain positions lie at or beyond another's in every chain.
use Prim.Native.Nat.add
use post_quantum_uav_uav.Prelude.{
  ℕ, zero, suc, ◌+◌, ◌-◌, ◌*◌, ◌/◌, ◌%◌, ◌^◌, ◌≤◌, ◌<◌, ◌≡◌, refl, ap, ap₂, ◌∙◌, true, false, List,
  [], ◌∷◌, ◌++◌, All, arith, ◌==◌, if◌then◌else◌, length,
}
use native.Mathlib.Decide.{ℕ_discrete}
use post_quantum_uav_uav.Codec.{IsByte, byte_at, put_u16}
use post_quantum_uav_uav.Lms.Ots.{coefficient_w4, checksum_loop, with_checksum, max_chain}
use post_quantum_uav_uav.Lms.Chain.{coefficient_w4-lt}

-- How far the coefficients from `i` on lie below the chain's end, added up.
deficits : List ℕ → ℕ → ℕ → ℕ
deficits bytes zero i = 0
deficits bytes (suc n) i = 15 - coefficient_w4 bytes i + deficits bytes n (i + 1)

deficits-le : (bytes : List ℕ) (n i : ℕ) → deficits bytes n i ≤ 15 * n
unfolding deficits
deficits-le bytes zero i = omega arith
deficits-le bytes (suc n) i = omega (arith, deficits-le bytes n (i + 1))

-- The 16-bit checksum does not wrap.
checksum_loop-deficits :
    (bytes : List ℕ) (n i c : ℕ)
    → c + 15 * n < 65536
    → checksum_loop bytes n i c ≡ c + deficits bytes n i
unfolding checksum_loop deficits
checksum_loop-deficits bytes zero i c h = omega arith
checksum_loop-deficits bytes (suc n) i c h =
    ap (λ (t : ℕ). checksum_loop bytes n (i + 1) t) no_wrap
    ∙ checksum_loop-deficits bytes n (i + 1) (c + (15 - coefficient_w4 bytes i)) (omega arith)
    ∙ omega arith
  where
    no_wrap : (c + max_chain - coefficient_w4 bytes i) % 2 ^ 16 ≡ c + (15 - coefficient_w4 bytes i)
    no_wrap = omega (arith, coefficient_w4-lt bytes i)

byte_at-append : (xs ys : List ℕ) (k : ℕ) → k < length xs → byte_at (xs ++ ys) k ≡ byte_at xs k
byte_at-append [] ys k h = absurd (omega arith)
byte_at-append (x ∷ xs) ys zero h = refl
byte_at-append (x ∷ xs) ys (suc k) h = byte_at-append xs ys k (omega arith)

byte_at-append_right :
    (xs ys : List ℕ) (n k : ℕ) → length xs ≡ n → byte_at (xs ++ ys) (n + k) ≡ byte_at ys k
byte_at-append_right [] ys n k h = ap (byte_at ys) (omega arith)
byte_at-append_right (x ∷ xs) ys zero k h = absurd (omega arith)
byte_at-append_right (x ∷ xs) ys (suc n) k h =
    ap (byte_at (x ∷ (xs ++ ys))) (add.suc n k) ∙ byte_at-append_right xs ys n k (omega arith)

module _ (digest : List ℕ) (sized : length digest ≡ 32) where
  coefficient-digest :
      (i : ℕ) → i < 64 → coefficient_w4 (with_checksum digest) i ≡ coefficient_w4 digest i
  unfolding coefficient_w4 with_checksum
  coefficient-digest i h =
      ap (λ (v : ℕ). if i % 2 == 0 then v / 2 ^ 4 % 16 else v % 16)
        (byte_at-append digest _ (i / 2) (omega arith))

  abbrev total : ℕ
  total = deficits digest 64 0

  -- The last three coefficients are the checksum's digits in base 16.
  checksum_digits :
      256 * coefficient_w4 (with_checksum digest) 64
        + 16 * coefficient_w4 (with_checksum digest) 65
        + coefficient_w4 (with_checksum digest) 66
      ≡ total
  unfolding coefficient_w4 with_checksum put_u16
  checksum_digits = omega (
    arith,
    byte_at-append_right digest (put_u16 (checksum_loop digest 64 0 0 * 2 ^ 4 % 2 ^ 16)) 32 0 sized,
    byte_at-append_right digest (put_u16 (checksum_loop digest 64 0 0 * 2 ^ 4 % 2 ^ 16)) 32 1 sized,
    checksum_loop-deficits digest 64 0 0 (omega arith),
    deficits-le digest 64 0,
  )

module _ (d e : List ℕ) where
  -- Where no coefficient falls the deficits do not grow, and agree only if the coefficients do.
  deficits_mono :
      (n i : ℕ)
      → ((k : ℕ) → i ≤ k → k < i + n → coefficient_w4 d k ≤ coefficient_w4 e k)
      → deficits e n i ≤ deficits d n i
  unfolding deficits
  deficits_mono zero i h = omega arith
  deficits_mono (suc n) i h = omega (
    arith,
    h i (omega arith) (omega arith),
    coefficient_w4-lt e i,
    deficits_mono n (i + 1) (λ k lo hi. h k (omega arith) (omega arith)),
  )

  coefficients_equal :
      (n i : ℕ)
      → ((k : ℕ) → i ≤ k → k < i + n → coefficient_w4 d k ≤ coefficient_w4 e k)
      → deficits d n i ≤ deficits e n i
      → (k : ℕ) → i ≤ k
      → k < i + n
      → coefficient_w4 d k ≡ coefficient_w4 e k
  unfolding deficits
  coefficients_equal zero i h le k lo hi = absurd (omega arith)
  coefficients_equal (suc n) i h le k lo hi =
      let tail : (j : ℕ) → i + 1 ≤ j → j < i + 1 + n → coefficient_w4 d j ≤ coefficient_w4 e j =
        λ j lo' hi'. h j (omega arith) (omega arith) in
      let first : coefficient_w4 d i ≤ coefficient_w4 e i = h i (omega arith) (omega arith) in
      let rest : deficits e n (i + 1) ≤ deficits d n (i + 1) = deficits_mono n (i + 1) tail in
      elim (ℕ_discrete i k) [
        | yes here ↦ rw (← here) (omega (arith, coefficient_w4-lt e i, coefficient_w4-lt d i))
        | no other ↦
            coefficients_equal n (i + 1) tail
              (omega (arith, coefficient_w4-lt e i, coefficient_w4-lt d i)) k (omega arith)
              (omega arith)
      ]

-- A byte is its two coefficients.
byte_coefficients :
    (bytes : List ℕ) (k : ℕ)
    → byte_at bytes k < 256
    → byte_at bytes k ≡ 16 * coefficient_w4 bytes (2 * k) + coefficient_w4 bytes (2 * k + 1)
unfolding coefficient_w4
byte_coefficients bytes k h =
    let even : (2 * k % 2 == 0) ≡ true = ground arith in
    let odd : ((2 * k + 1) % 2 == 0) ≡ false = ground arith in
    let half : 2 * k / 2 ≡ k = omega arith in
    let half' : (2 * k + 1) / 2 ≡ k = omega arith in rw (even, odd, half, half') (omega arith)

byte_at-IsByte : (bytes : List ℕ) (k : ℕ) → All IsByte bytes → byte_at bytes k < 256
byte_at-IsByte [] k h = omega arith
byte_at-IsByte (b ∷ bytes) zero h = h.0
byte_at-IsByte (b ∷ bytes) (suc k) h = byte_at-IsByte bytes k h.1

same_bytes :
    (n : ℕ) (xs ys : List ℕ)
    → length xs ≡ n
    → length ys ≡ n
    → ((k : ℕ) → k < n → byte_at xs k ≡ byte_at ys k)
    → xs ≡ ys
same_bytes zero [] [] hx hy h = refl
same_bytes zero [] (y ∷ ys) hx hy h = absurd (omega arith)
same_bytes zero (x ∷ xs) ys hx hy h = absurd (omega arith)
same_bytes (suc n) [] ys hx hy h = absurd (omega arith)
same_bytes (suc n) (x ∷ xs) [] hx hy h = absurd (omega arith)
same_bytes (suc n) (x ∷ xs) (y ∷ ys) hx hy h =
    ap₂ ◌∷◌ (h 0 (omega arith))
      (same_bytes n xs ys (omega arith) (omega arith) (λ k hk. h (suc k) (omega arith)))

-- Of two 32-byte digests, where every one of the 67 chain positions of the first is at most that of
-- the second, the digests are equal.
pub with_checksum_undominated :
    (d e : List ℕ)
    → length d ≡ 32
    → length e ≡ 32
    → All IsByte d
    → All IsByte e
    → ((i : ℕ) → i < 67 → coefficient_w4 (with_checksum d) i ≤ coefficient_w4 (with_checksum e) i)
    → d ≡ e
with_checksum_undominated d e hd he bd be h = same_bytes 32 d e hd he same
  where
    below : (k : ℕ) → 0 ≤ k → k < 0 + 64 → coefficient_w4 d k ≤ coefficient_w4 e k
    below k lo hi = omega (
      arith,
      h k (omega arith),
      coefficient-digest d hd k (omega arith),
      coefficient-digest e he k (omega arith),
    )

    sums : deficits d 64 0 ≤ deficits e 64 0
    sums = omega (
      arith,
      checksum_digits d hd,
      checksum_digits e he,
      h 64 (omega arith),
      h 65 (omega arith),
      h 66 (omega arith),
    )

    equal : (k : ℕ) → k < 64 → coefficient_w4 d k ≡ coefficient_w4 e k
    equal k hk = coefficients_equal d e 64 0 below sums k (omega arith) (omega arith)

    same : (k : ℕ) → k < 32 → byte_at d k ≡ byte_at e k
    same k hk = omega (
      arith,
      byte_coefficients d k (byte_at-IsByte d k bd),
      byte_coefficients e k (byte_at-IsByte e k be),
      equal (2 * k) (omega arith),
      equal (2 * k + 1) (omega arith),
    )

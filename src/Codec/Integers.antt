-- ===== src/Codec/Integers.antt =====
-- Reading back what `putU16`, `putU32` and `putU64` of ProtocolConstants.h stored.
use post_quantum_uav_uav.Prelude.{
  ℕ, zero, suc, ◌+◌, ◌*◌, ◌/◌, ◌%◌, ◌^◌, ◌<◌, ◌≡◌, refl, sym, ◌∙◌, arith, List, [], ◌∷◌, ◌++◌, All,
  take, drop, length, bit_or, All-append,
}
use native.Mathlib.Nat.{pow-suc, le_trans, pow-le-pow_right}
use post_quantum_uav_uav.Prelude.Bits.{bit_or_fields}
use post_quantum_uav_uav.Codec.{
  IsByte, byte_at, put_u16, put_u32, put_u64, put_u64_loop, get_u16, get_u32, get_u64, get_u64_loop,
}

-- A stored 16-bit value is read back, whatever follows it.
pub get_u16-put_u16 : (v : ℕ) (rest : List ℕ) → v < 2 ^ 16 → get_u16 (put_u16 v ++ rest) ≡ v
unfolding get_u16 put_u16
get_u16-put_u16 v rest h = omega (arith, bit_or_fields 8 (v / 2 ^ 8 % 256) (v % 256) (omega arith))

or_second : (a b : ℕ) → b < 256 → bit_or (a * 2 ^ 24) (b * 2 ^ 16) ≡ (a * 256 + b) * 2 ^ 16
or_second a b h = omega (arith, bit_or_fields 24 a (b * 2 ^ 16) (omega arith))

or_third : (a b : ℕ) → b < 256 → bit_or (a * 2 ^ 16) (b * 2 ^ 8) ≡ (a * 256 + b) * 2 ^ 8
or_third a b h = omega (arith, bit_or_fields 16 a (b * 2 ^ 8) (omega arith))

-- The four bytes as one number.
get_u32_bytes :
    (a b c d : ℕ) (rest : List ℕ)
    → b < 256
    → c < 256
    → d < 256
    → get_u32 (a ∷ b ∷ c ∷ d ∷ rest) ≡ ((a * 256 + b) * 256 + c) * 256 + d
unfolding get_u32
get_u32_bytes a b c d rest hb hc hd =
    rw (or_second a b hb, or_third (a * 256 + b) c hc)
      (bit_or_fields 8 ((a * 256 + b) * 256 + c) d hd)

-- A stored 32-bit value is read back, whatever follows it.
pub get_u32-put_u32 : (v : ℕ) (rest : List ℕ) → v < 2 ^ 32 → get_u32 (put_u32 v ++ rest) ≡ v
unfolding put_u32
get_u32-put_u32 v rest h = omega (
  arith,
  get_u32_bytes (v / 2 ^ 24 % 256) (v / 2 ^ 16 % 256) (v / 2 ^ 8 % 256) (v % 256) rest (omega arith)
      (omega arith) (omega arith),
)

-- One round of the 64-bit reader: a number below 2 ^ 56 takes in a byte without loss.
read_round :
    (value b : ℕ) → value < 2 ^ 56 → b < 256 → bit_or (value * 2 ^ 8 % 2 ^ 64) b ≡ value * 256 + b
read_round value b hv hb = bit_or_round
  where
    small : value * 2 ^ 8 % 2 ^ 64 ≡ value * 2 ^ 8
    small = omega arith

    bit_or_round : bit_or (value * 2 ^ 8 % 2 ^ 64) b ≡ value * 256 + b
    bit_or_round = rw small (bit_or_fields 8 value b hb)

-- The number that `n` bytes write, in base 256, behind `value`.
abbrev join : ℕ → List ℕ → ℕ → ℕ
join zero bytes value = value
join (suc n) bytes value = join n (drop 1 bytes) (value * 256 + byte_at bytes 0)

byte_at-IsByte : (bytes : List ℕ) → All IsByte bytes → byte_at bytes 0 < 256
byte_at-IsByte [] h = omega arith
byte_at-IsByte (b ∷ bytes) h = h.0

drop-IsByte : (bytes : List ℕ) → All IsByte bytes → All IsByte (drop 1 bytes)
drop-IsByte [] h = tt
drop-IsByte (b ∷ bytes) h = h.1

-- With room for the bytes to come no round loses a bit.
get_u64_loop-join :
    (n m value : ℕ) (bytes : List ℕ)
    → value < 256 ^ m
    → m + n ≡ 8
    → All IsByte bytes
    → get_u64_loop n bytes value ≡ join n bytes value
unfolding get_u64_loop
get_u64_loop-join zero m value bytes hv hm hb = refl
get_u64_loop-join (suc n) m value bytes hv hm hb =
    rw (read_round value (byte_at bytes 0) room (byte_at-IsByte bytes hb)) (
      get_u64_loop-join n (suc m) (value * 256 + byte_at bytes 0) (drop 1 bytes)
        (omega (arith, pow-suc 256 m, byte_at-IsByte bytes hb)) (omega arith)
        (drop-IsByte bytes hb))
  where
    room : value < 2 ^ 56
    room = omega (
      arith,
      le_trans hv (pow-le-pow_right {n = 256} (omega arith) {i = m} {j = 7} (omega arith)),
    )

-- A stored 64-bit value is read back, whatever bytes follow it.
pub get_u64-put_u64 :
    (v : ℕ) (rest : List ℕ) → v < 2 ^ 64 → All IsByte rest → get_u64 (put_u64 v ++ rest) ≡ v
unfolding get_u64 put_u64
get_u64-put_u64 v rest h hr =
    get_u64_loop-join 8 0 0 (put_u64_loop 8 v ++ rest) (omega arith) refl
      (All-append IsByte (put_u64_loop 8 v) rest (omega arith) hr)
    ∙ omega arith

pub length-put_u16 : (v : ℕ) → length (put_u16 v) ≡ 2
unfolding put_u16
length-put_u16 v = refl

pub length-put_u32 : (v : ℕ) → length (put_u32 v) ≡ 4
unfolding put_u32
length-put_u32 v = refl

-- Equal fields hold equal numbers.
pub put_u32-injective : (v w : ℕ) → v < 2 ^ 32 → w < 2 ^ 32 → put_u32 v ≡ put_u32 w → v ≡ w
put_u32-injective v w hv hw e = sym (get_u32-put_u32 v [] hv) ∙ rw e (get_u32-put_u32 w [] hw)

-- Four bytes are what their number writes.
pub put_u32-get_u32 :
    (bytes : List ℕ) → length bytes ≡ 4 → All IsByte bytes → put_u32 (get_u32 bytes) ≡ bytes
unfolding put_u32
put_u32-get_u32 [] h bytes = absurd (omega arith)
put_u32-get_u32 (a ∷ []) h bytes = absurd (omega arith)
put_u32-get_u32 (a ∷ b ∷ []) h bytes = absurd (omega arith)
put_u32-get_u32 (a ∷ b ∷ c ∷ []) h bytes = absurd (omega arith)
put_u32-get_u32 (a ∷ b ∷ c ∷ d ∷ e ∷ rest) h bytes = absurd (omega arith)
put_u32-get_u32 (a ∷ b ∷ c ∷ d ∷ []) h (ha, (hb, (hc, (hd, _)))) =
    let value = get_u32_bytes a b c d [] hb hc hd in
    let number = get_u32 (a ∷ b ∷ c ∷ d ∷ []) in
    let first : number / 2 ^ 24 % 256 ≡ a = omega (arith, value) in
    let second : number / 2 ^ 16 % 256 ≡ b = omega (arith, value) in
    let third : number / 2 ^ 8 % 256 ≡ c = omega (arith, value) in
    let fourth : number % 256 ≡ d = omega (arith, value) in
    λ k. first k ∷ second k ∷ third k ∷ fourth k ∷ []

-- The readers look at their own bytes only.
pub get_u32-take : (bytes : List ℕ) → get_u32 (take 4 bytes) ≡ get_u32 bytes
unfolding get_u32
get_u32-take [] = refl
get_u32-take (a ∷ []) = refl
get_u32-take (a ∷ b ∷ []) = refl
get_u32-take (a ∷ b ∷ c ∷ []) = refl
get_u32-take (a ∷ b ∷ c ∷ d ∷ rest) = refl

get_u64_loop-take :
    (n : ℕ) (bytes : List ℕ) (value : ℕ)
    → get_u64_loop n (take n bytes) value ≡ get_u64_loop n bytes value
unfolding get_u64_loop
get_u64_loop-take zero bytes value = refl
get_u64_loop-take (suc n) [] value = refl
get_u64_loop-take (suc n) (b ∷ bytes) value = get_u64_loop-take n bytes _

pub get_u64-take : (bytes : List ℕ) → get_u64 (take 8 bytes) ≡ get_u64 bytes
unfolding get_u64
get_u64-take bytes = get_u64_loop-take 8 bytes 0

pub put_u32-IsByte : (v : ℕ) → All IsByte (put_u32 v)
unfolding put_u32
put_u32-IsByte v = omega arith

pub length-put_u64 : (v : ℕ) → length (put_u64 v) ≡ 8
unfolding put_u64
length-put_u64 v = refl

pub put_u64-IsByte : (v : ℕ) → All IsByte (put_u64 v)
unfolding put_u64
put_u64-IsByte v = omega arith

-- ===== src/Codec.antt =====
-- ESP32_Proposed_Protocol_Complete_v4/Arduino/libraries/ProposedUavProtocol/library/src/
-- ProtocolConstants.h: big-endian integers in byte arrays, and the constant-time comparison. A byte
-- array is a list of numbers; `put_*` gives the bytes that the source stores through `out`.
pub mod Integers
pub mod Compare
use post_quantum_uav_uav.Prelude.{
  ℕ, zero, suc, ◌+◌, ◌*◌, ◌/◌, ◌%◌, ◌^◌, ◌<◌, bit_or, bit_xor, Bool, List, [], ◌∷◌, get_or, drop,
  ◌==◌,
}

abbrev pub IsByte : ℕ → Type 0
IsByte b = b < 256

unfoldable pub put_u16 : ℕ → List ℕ
put_u16 value = (value / 2 ^ 8 % 256) ∷ (value % 256) ∷ []

unfoldable pub put_u32 : ℕ → List ℕ
put_u32 value =
    (value / 2 ^ 24 % 256) ∷ (value / 2 ^ 16 % 256) ∷ (value / 2 ^ 8 % 256) ∷ (value % 256) ∷ []

-- `for (i = 7; i >= 0; --i) out[7 - i] = value >> (i * 8)`, with `i + 1` rounds to go.
put_u64_loop : ℕ → ℕ → List ℕ
put_u64_loop zero value = []
put_u64_loop (suc i) value = (value / 2 ^ (i * 8) % 256) ∷ put_u64_loop i value

pub put_u64 : ℕ → List ℕ
unfolding put_u64_loop
put_u64 value = put_u64_loop 8 value

-- `p[i]`
abbrev pub byte_at : List ℕ → ℕ → ℕ
byte_at bytes i = get_or bytes i 0

pub get_u16 : List ℕ → ℕ
get_u16 bytes = bit_or (byte_at bytes 0 * 2 ^ 8) (byte_at bytes 1) % 2 ^ 16

pub get_u32 : List ℕ → ℕ
get_u32 bytes =
    bit_or
      (bit_or (bit_or (byte_at bytes 0 * 2 ^ 24) (byte_at bytes 1 * 2 ^ 16))
        (byte_at bytes 2 * 2 ^ 8))
      (byte_at bytes 3)

-- `value = (value << 8) | in[i]`; the list stands for `in + i`.
get_u64_loop : ℕ → List ℕ → ℕ → ℕ
get_u64_loop zero bytes value = value
get_u64_loop (suc n) bytes value =
    get_u64_loop n (drop 1 bytes) (bit_or (value * 2 ^ 8 % 2 ^ 64) (byte_at bytes 0))

pub get_u64 : List ℕ → ℕ
unfolding get_u64_loop
get_u64 bytes = get_u64_loop 8 bytes 0

-- `difference |= left[i] ^ right[i]`; the lists stand for `left + i` and `right + i`.
pub differences : ℕ → List ℕ → List ℕ → ℕ → ℕ
differences zero left right difference = difference
differences (suc n) left right difference =
    differences n (drop 1 left) (drop 1 right)
      (bit_or difference (bit_xor (byte_at left 0) (byte_at right 0) % 256))

pub constant_time_equal : List ℕ → List ℕ → ℕ → Bool
unfolding differences
constant_time_equal left right length = differences length left right 0 == 0

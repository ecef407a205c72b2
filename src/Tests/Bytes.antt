-- ===== src/Tests/Bytes.antt =====
-- Codec and Crypto at concrete inputs.
use post_quantum_uav_uav.Prelude.{ℕ, ◌≡◌, refl, ◌↔◌, true, some, List, [], ◌∷◌, ◌++◌, take, arith}
use post_quantum_uav_uav.Codec.{put_u32, put_u64, get_u32, get_u64, constant_time_equal}
use post_quantum_uav_uav.Codec.Integers.{get_u32-put_u32, get_u64-put_u64}
use post_quantum_uav_uav.Codec.Compare.{constant_time_equal_iff}
use post_quantum_uav_uav.Crypto.{hkdf_sha256}
use post_quantum_uav_uav.Crypto.Hkdf.{rfc5869, hkdf_sha256-rfc5869}
use post_quantum_uav_uav.Tests.Toy.{toy, toy-IsDocumented}

put_u32_run : put_u32 0xa55a0102 ≡ 0xa5 ∷ 0x5a ∷ 1 ∷ 2 ∷ []
unfolding put_u32
put_u32_run = refl

get_u32-put_u32_example : get_u32 (put_u32 0xdeadbeef ++ (7 ∷ [])) ≡ 0xdeadbeef
get_u32-put_u32_example = get_u32-put_u32 0xdeadbeef (7 ∷ []) (omega arith)

get_u64-put_u64_example : get_u64 (put_u64 0x0123456789abcdef ++ (7 ∷ [])) ≡ 0x0123456789abcdef
get_u64-put_u64_example = get_u64-put_u64 0x0123456789abcdef (7 ∷ []) (omega arith) (omega arith)

abbrev left : List ℕ
left = 1 ∷ 2 ∷ 3 ∷ []

abbrev right : List ℕ
right = 1 ∷ 2 ∷ 4 ∷ []

constant_time_equal_iff_example :
    (constant_time_equal left right 2 ≡ true) ↔ (take 2 left ≡ take 2 right)
constant_time_equal_iff_example =
    constant_time_equal_iff left right 2 (omega arith) (omega arith) (omega arith) (omega arith)

hkdf_sha256-rfc5869_example :
    hkdf_sha256 toy (some (9 ∷ 9 ∷ [])) 2 (some []) 0 (some (1 ∷ [])) 1 96
    ≡ rfc5869 toy (9 ∷ 9 ∷ []) [] (1 ∷ []) 96
hkdf_sha256-rfc5869_example =
    hkdf_sha256-rfc5869 toy toy-IsDocumented (9 ∷ 9 ∷ []) [] (1 ∷ []) 96 (omega arith) (omega arith)
      (omega arith) (omega arith) (omega arith)

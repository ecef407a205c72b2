-- ===== src/Protocol/Hello.antt =====
-- The first two messages: `buildM0`, `validateM0`, `buildM1` and `validateM1`. The bytes of
-- `esp_fill_random` are an argument.
use post_quantum_uav_uav.Prelude.{
  ℕ, Bool, ◌&&◌, Option, none, some, List, [], ◌∷◌, ◌==◌, if◌then◌else◌, drop, slice, replicate,
  write_at,
}
use post_quantum_uav_uav.Codec.{put_u32, get_u32, byte_at, constant_time_equal}
use post_quantum_uav_uav.Protocol.Config.{NodeConfig, suite_id_for_mode}

abbrev pub msg_m0_req : ℕ
msg_m0_req = 0x10

abbrev pub msg_m1_chal : ℕ
msg_m1_chal = 0x11

-- What `m_m0` holds after the call.
unfoldable pub build_m0 : NodeConfig → List ℕ → List ℕ
build_m0 config nonce_a =
    let m = write_at 0 (1 ∷ []) (replicate 86 0) in
    let m = write_at 1 (msg_m0_req ∷ []) m in
    let m = write_at 2 config.device_id m in
    let m = write_at 34 config.peer_id m in
    let m = write_at 66 nonce_a m in write_at 82 (put_u32 (suite_id_for_mode config.path_mode)) m

unfoldable pub validate_m0 : NodeConfig → List ℕ → List ℕ → Bool
validate_m0 config m0 nonce_a =
    (byte_at m0 0 == 1)
    && (byte_at m0 1 == msg_m0_req)
    && constant_time_equal (drop 2 m0) config.peer_id 32
    && constant_time_equal (drop 34 m0) config.device_id 32
    && constant_time_equal (drop 66 m0) nonce_a 16
    && (get_u32 (drop 82 m0) == suite_id_for_mode config.path_mode)

-- What `m_m1` holds after the call.
unfoldable pub build_m1 : NodeConfig → List ℕ → List ℕ → List ℕ
build_m1 config nonce_a nonce_b =
    let m = write_at 0 (1 ∷ []) (replicate 102 0) in
    let m = write_at 1 (msg_m1_chal ∷ []) m in
    let m = write_at 2 config.device_id m in
    let m = write_at 34 config.peer_id m in
    let m = write_at 66 nonce_a m in
    let m = write_at 82 nonce_b m in write_at 98 (put_u32 (suite_id_for_mode config.path_mode)) m

-- `none` where the call returns false, and what it stores through `nonceB` otherwise.
unfoldable pub validate_m1 : NodeConfig → List ℕ → List ℕ → Option (List ℕ)
validate_m1 config m1 nonce_a =
    if (byte_at m1 0 == 1)
      && (byte_at m1 1 == msg_m1_chal)
      && constant_time_equal (drop 2 m1) config.peer_id 32
      && constant_time_equal (drop 34 m1) config.device_id 32
      && constant_time_equal (drop 66 m1) nonce_a 16
      && (get_u32 (drop 98 m1) == suite_id_for_mode config.path_mode)
    then some (slice 82 16 m1)
    else none

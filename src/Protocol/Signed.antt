-- ===== src/Protocol/Signed.antt =====
-- What the LM-OTS signatures of M2 and M3 cover: `buildM2SignedInput` and `buildM3SignedInput`.
use post_quantum_uav_uav.Prelude.{ℕ, List, [], ◌∷◌, replicate, write_at}
use post_quantum_uav_uav.Codec.{put_u16, put_u32}
use post_quantum_uav_uav.Protocol.Config.{NodeConfig, Role, initiator, responder}

abbrev pub domain_init : ℕ
domain_init = 0x31

abbrev pub domain_resp : ℕ
domain_resp = 0x32

abbrev pub domain_lmots_sign : ℕ
domain_lmots_sign = 0x33

abbrev mu_bytes : ℕ
mu_bytes = 902

abbrev lmots_signed_object_bytes : ℕ
lmots_signed_object_bytes = 910

abbrev pub choose : Role → List ℕ → List ℕ → List ℕ
choose initiator own peers = own
choose responder own peers = peers

abbrev pub id_a : NodeConfig → List ℕ
id_a config = choose config.role config.device_id config.peer_id

abbrev pub id_b : NodeConfig → List ℕ
id_b config = choose config.role config.peer_id config.device_id

-- What `m_signInput` holds once `mu` is wrapped.
abbrev pub wrap_mu : List ℕ → ℕ → List ℕ
wrap_mu mu q =
    let s = write_at 0 (1 ∷ []) (replicate lmots_signed_object_bytes 0) in
    let s = write_at 1 (domain_lmots_sign ∷ []) s in
    let s = write_at 2 (put_u16 mu_bytes) s in let s = write_at 4 mu s in write_at 906 (put_u32 q) s

abbrev mu_a : NodeConfig → List ℕ → ℕ → List ℕ → List ℕ
mu_a config sid version public_key =
    let m = write_at 0 (1 ∷ []) (replicate mu_bytes 0) in
    let m = write_at 1 (domain_init ∷ []) m in
    let m = write_at 2 sid m in
    let m = write_at 34 (id_a config) m in
    let m = write_at 66 (id_b config) m in
    let m = write_at 98 (put_u32 version) m in write_at 102 public_key m

unfoldable pub build_m2_signed_input : NodeConfig → List ℕ → ℕ → ℕ → List ℕ → List ℕ
build_m2_signed_input config sid version q public_key =
    wrap_mu (mu_a config sid version public_key) q

abbrev mu_b : NodeConfig → List ℕ → List ℕ → ℕ → List ℕ → List ℕ
mu_b config sid hash_m2 version ciphertext =
    let m = write_at 0 (1 ∷ []) (replicate mu_bytes 0) in
    let m = write_at 1 (domain_resp ∷ []) m in
    let m = write_at 2 sid m in
    let m = write_at 34 hash_m2 m in
    let m = write_at 66 (id_a config) m in
    let m = write_at 98 (id_b config) m in
    let m = write_at 130 (put_u32 version) m in write_at 134 ciphertext m

unfoldable pub build_m3_signed_input : NodeConfig → List ℕ → List ℕ → ℕ → ℕ → List ℕ → List ℕ
build_m3_signed_input config sid hash_m2 version q ciphertext =
    wrap_mu (mu_b config sid hash_m2 version ciphertext) q

-- ===== src/Protocol/Respond.antt =====
-- The responder's answer to M2, the initiator's to M3, and the responder's last check.
use post_quantum_uav_uav.Prelude.{
  ℕ, ◌+◌, ◌&&◌, Option, some, List, drop, slice, replicate, ltb, ◌==◌, ◌>>=◌, ◌>>◌, guard,
  write_fields,
}
use post_quantum_uav_uav.Codec.{get_u16, get_u32, constant_time_equal}
use post_quantum_uav_uav.Crypto.{hash}
use post_quantum_uav_uav.Lms.Tree.{lms_leaves}
use post_quantum_uav_uav.Protocol.Config.{
  m2_bytes_for_mode, m3_inner_bytes_for_mode, m3_bytes_for_mode,
}
use post_quantum_uav_uav.Protocol.Counter.{Nvs}
use post_quantum_uav_uav.Protocol.Signed.{build_m2_signed_input, build_m3_signed_input}
use post_quantum_uav_uav.Protocol.Transcript.{
  timed_transcript_hash, derive_session_keys, compute_confirmation_tag, domain_a_confirm,
  domain_b_confirm,
}
use post_quantum_uav_uav.Protocol.Peer.{validate_peer_record, answer_key, open_ciphertext}
use post_quantum_uav_uav.Protocol.Session.{
  Services, Node, Draws, AwaitingM3, m3_inner_fields, m3_fields, m4_fields, carried_path, is_headed,
  sign_input, check_signature, with_index,
}

-- What both nodes have once the keys are derived.
pub record Keys : Type 0 where
  pub transcript_hash : List ℕ
  pub session_key : List ℕ
  pub confirm_a : List ℕ
  pub confirm_b : List ℕ

module _ (s : Services) (node : Node) where
  -- `timedTranscriptHash` and `deriveSessionKeys`, which follow each other in both roles.
  unfoldable pub derive_keys : List ℕ → List ℕ → List ℕ → List ℕ → List ℕ → List ℕ → Option Keys
  derive_keys sid m0 m1 m2 inner shared_secret = do
    let mode = node.config.path_mode
    transcript_hash ←
        timed_transcript_hash s.w sid m0 m1 m2 (m2_bytes_for_mode mode) inner
          (m3_inner_bytes_for_mode mode)
    keys ← derive_session_keys s.w shared_secret transcript_hash
    some record {
      transcript_hash = transcript_hash;
      session_key = keys.0;
      confirm_a = keys.1;
      confirm_b = keys.2;
    }

  -- The peer's signature of M2, and the answer to its key: the hash of M2, the ciphertext and the
  -- shared secret.
  unfoldable pub responder_before : List ℕ → List ℕ → ℕ → List ℕ → Option (List ℕ × List ℕ × List ℕ)
  responder_before sid m2 now random = do
    guard (is_headed 0x12 sid m2)
    let version = get_u32 (drop 34 m2)
    let q = get_u32 (drop 38 m2)
    let public_key = slice 42 800 m2
    guard (ltb q lms_leaves && validate_peer_record node.config node.peer_record now version)
    hash_m2 ← hash s.w m2
    check_signature s node version q (carried_path node.config.path_mode 3022 m2)
        (build_m2_signed_input node.config sid version q public_key) (slice 842 2180 m2)
    answer ← answer_key s.kem public_key random
    some (hash_m2, answer.0, answer.1)

  unfoldable pub responder_after :
      List ℕ
      → List ℕ
      → List ℕ
      → List ℕ
      → List ℕ × List ℕ × List ℕ
      → List ℕ
      → ℕ
      → Option (Keys × List ℕ)
  responder_after m0 m1 sid m2 (hash_m2, ciphertext, shared_secret) random q = do
    let mode = node.config.path_mode
    let version = node.config.credential_version
    signed ←
        sign_input s node q (build_m3_signed_input node.config sid hash_m2 version q ciphertext)
          random
    let inner =
        write_fields 0 (m3_inner_fields mode sid version q ciphertext signed.0 signed.1)
          (replicate (m3_inner_bytes_for_mode mode) 0)
    keys ← derive_keys sid m0 m1 m2 inner shared_secret
    tau_b ← compute_confirmation_tag s.w domain_b_confirm keys.confirm_b keys.transcript_hash
    some (
      keys,
      write_fields 0 (m3_fields mode sid inner tau_b) (replicate (m3_bytes_for_mode mode) 0),
    )

  -- `runResponderOnce` from M2 to M3: the keys and M3.
  unfoldable pub responder_m3 :
      Draws → Nvs → List ℕ → List ℕ → List ℕ → List ℕ → Option (Keys × List ℕ) × Nvs
  responder_m3 draws nvs m0 m1 sid m2 =
      with_index node.config draws.flash nvs (responder_before sid m2 s.now draws.kem_random)
        (λ answer. responder_after m0 m1 sid m2 answer draws.sign_random)

  -- `runInitiatorSession` from M3 to M4: the keys and M4.
  unfoldable pub initiator_m4 :
      List ℕ → List ℕ → AwaitingM3 s node → List ℕ → Option (Keys × List ℕ)
  initiator_m4 m0 m1 waiting m3 = do
    let mode = node.config.path_mode
    let sid = waiting.sid
    guard (is_headed 0x13 sid m3 && (get_u16 (drop 34 m3) == m3_inner_bytes_for_mode mode))
    let inner = slice 36 (m3_inner_bytes_for_mode mode) m3
    let tau_b = slice (36 + m3_inner_bytes_for_mode mode) 32 m3
    guard (is_headed 0x14 sid inner)
    let version = get_u32 (drop 34 inner)
    let q = get_u32 (drop 38 inner)
    let ciphertext = slice 42 768 inner
    guard (ltb q lms_leaves && validate_peer_record node.config node.peer_record s.now version)
    check_signature s node version q (carried_path mode 2990 inner)
        (build_m3_signed_input node.config sid waiting.hash_m2 version q ciphertext)
        (slice 810 2180 inner)
    shared_secret ← open_ciphertext s.kem waiting.key ciphertext
    keys ← derive_keys sid m0 m1 waiting.m2 inner shared_secret
    expected_tau_b ←
        compute_confirmation_tag s.w domain_b_confirm keys.confirm_b keys.transcript_hash
    guard (constant_time_equal expected_tau_b tau_b 32)
    tau_a ← compute_confirmation_tag s.w domain_a_confirm keys.confirm_a keys.transcript_hash
    some (keys, write_fields 0 (m4_fields sid tau_a) (replicate 66 0))

  -- `runResponderOnce` on M4.
  unfoldable pub responder_accepts : List ℕ → Keys → List ℕ → Option (Unit {0})
  responder_accepts sid keys m4 = do
    guard (is_headed 0x15 sid m4)
    expected_tau_a ←
        compute_confirmation_tag s.w domain_a_confirm keys.confirm_a keys.transcript_hash
    guard (constant_time_equal expected_tau_a (drop 34 m4) 32)

-- ===== src/Protocol/KeyAgreement.antt =====
-- ProposedUavProtocol.cpp: two honest nodes end a session with one set of keys.
use post_quantum_uav_uav.Prelude.{
  ℕ, ◌^◌, ◌<◌, ◌≡◌, refl, sym, ◌∙◌, true, Option, some, List, [], ◌∷◌, length, >>=-eq-some, drop,
  joined, joined-drop, write_fields, write_fields-zeros, replicate,
}
use post_quantum_uav_uav.Codec.Compare.{constant_time_equal_refl}
use post_quantum_uav_uav.Crypto.{IsDocumented}
use post_quantum_uav_uav.Protocol.Counter.{Nvs}
use post_quantum_uav_uav.Protocol.Transcript.{compute_confirmation_tag, domain_a_confirm}
use post_quantum_uav_uav.Protocol.Peer.{answer_key, validate_peer_record}
use post_quantum_uav_uav.Protocol.Session.{
  Services, Node, Draws, AwaitingM3, initiator_m2, m4_fields,
}
use post_quantum_uav_uav.Protocol.Respond.{Keys, responder_m3, initiator_m4, responder_accepts}
use post_quantum_uav_uav.Protocol.Read.{headed}
use post_quantum_uav_uav.Protocol.Trust.{IsProvisioned, Knows}
use post_quantum_uav_uav.Protocol.Offer.{Pair, initiator_m2-Offered}
use post_quantum_uav_uav.Protocol.Honest.{IsMlKem, responder_before-initiator_m2}
use post_quantum_uav_uav.Protocol.Answer.{compute_confirmation_tag-size}
use post_quantum_uav_uav.Protocol.Answered.{responder_m3-Answered}
use post_quantum_uav_uav.Protocol.Confirm.{initiator_m4-Answered}

-- The responder takes the M4 that carries the tag of its own key.
responder_accepts-tag :
    (s : Services) (node : Node) (documented : IsDocumented s.w) (sid tau_a : List ℕ) (keys : Keys)
    → length sid ≡ 32
    → compute_confirmation_tag s.w domain_a_confirm keys.confirm_a keys.transcript_hash ≡ some tau_a
    → responder_accepts s node sid keys (write_fields 0 (m4_fields sid tau_a) (replicate 66 0))
      ≡ some tt
unfolding responder_accepts
responder_accepts-tag s node documented sid tau_a keys hs ht =
    let size =
      compute_confirmation_tag-size s.w documented domain_a_confirm keys.confirm_a
        keys.transcript_hash tau_a ht in
    let m4 : write_fields 0 (m4_fields sid tau_a) (replicate 66 0) ≡ joined (m4_fields sid tau_a) =
      write_fields-zeros (m4_fields sid tau_a) 66 (refl, (refl, (hs, (size, tt)))) refl in
    let tag : drop 34 (joined (m4_fields sid tau_a)) ≡ tau_a =
      joined-drop ((1, 1 ∷ []) ∷ (1, 0x15 ∷ []) ∷ (32, sid) ∷ []) ((32, tau_a) ∷ [])
        (refl, (refl, (hs, tt))) in
    rw (m4, headed 0x15 sid tau_a hs, ht, tag, constant_time_equal_refl tau_a 32) refl

-- The keys of a session between two honest nodes: both have set up their trees from the seeds that
-- their PUFs give again, each holds the other's valid public record and can obtain its paths, digests
-- and ML-KEM are as documented. If the initiator sends M2, the responder answers it with M3, and the
-- tag over the initiator's confirmation key can be computed, then the initiator accepts that M3 and
-- ends with the responder's keys, session key included, and the responder accepts its M4.
pub initiator_m4-responder_m3 :
    (s : Services) (documented : IsDocumented s.w) (ml_kem : IsMlKem s.kem) (a b : Node)
    (pair : Pair a b) (fetch : ℕ → ℕ → Option (List ℕ)) (puf : Option (List ℕ)) (now : ℕ)
    (a_provisioned : IsProvisioned s a) (b_knows : Knows s a a_provisioned b fetch)
    (b_provisioned : IsProvisioned (record s { fetch_peer_path = fetch; puf = puf; now = now }) b)
    (a_knows : Knows
      (record s { fetch_peer_path = fetch; puf = puf; now = now })
      b
      b_provisioned
      a
      s.fetch_peer_path)
    (a_draws b_draws : Draws) (a_nvs a_next b_nvs b_next : Nvs) (m0 nonce_a m1 m3 tau_a : List ℕ)
    (waiting : AwaitingM3 s a) (keys : Keys)
    → a.config.credential_version < 2 ^ 32
    → b.config.credential_version < 2 ^ 32
    → validate_peer_record b.config b.peer_record now a.config.credential_version ≡ true
    → validate_peer_record a.config a.peer_record s.now b.config.credential_version ≡ true
    → length a_draws.sign_random ≡ 32
    → length b_draws.sign_random ≡ 32
    → initiator_m2 s a a_draws a_nvs m0 nonce_a m1 ≡ (some waiting, a_next)
    → responder_m3
        (record s { fetch_peer_path = fetch; puf = puf; now = now })
        b
        b_draws
        b_nvs
        m0
        m1
        waiting.sid
        waiting.m2
      ≡ (some (keys, m3), b_next)
    → compute_confirmation_tag s.w domain_a_confirm keys.confirm_a keys.transcript_hash ≡ some tau_a
    → (m4 : List ℕ) × (initiator_m4 s a m0 m1 waiting m3 ≡ some (keys, m4))
      × (responder_accepts
            (record s { fetch_peer_path = fetch; puf = puf; now = now })
            b
            waiting.sid
            keys
            m4
          ≡ some tt)
initiator_m4-responder_m3 s documented ml_kem a b pair fetch puf now a_provisioned b_knows
      b_provisioned a_knows a_draws b_draws a_nvs a_next b_nvs b_next m0 nonce_a m1 m3 tau_a waiting
      keys a_fits b_fits a_valid b_valid ha hb e2 e3 ht =
    let theirs : Services = record s { fetch_peer_path = fetch; puf = puf; now = now } in
    let (public_key, generated, before) =
      responder_before-initiator_m2 s documented ml_kem a b pair a_provisioned fetch puf now b_knows
        a_draws a_nvs a_next m0 nonce_a m1 b_draws.kem_random waiting a_fits a_valid ha e2 in
    let offered =
      initiator_m2-Offered s documented a a_draws a_nvs a_next m0 nonce_a m1 waiting e2 in
    let answered =
      responder_m3-Answered theirs b b_draws b_nvs b_next m0 m1 waiting.sid waiting.m2 m3 keys e3 in
    let ((ciphertext, secret), answer, rest) =
      >>=-eq-some (answer_key s.kem public_key b_draws.kem_random) _
        (sym before ∙ answered.before) in
    let same_hash : waiting.hash_m2 ≡ answered.hash_m2 = cc in
    let same_text : ciphertext ≡ answered.ciphertext = cc in
    let same_secret : secret ≡ answered.secret = cc in
    let given : answer_key s.kem public_key b_draws.kem_random
        ≡ some (answered.ciphertext, answered.secret) =
      answer ∙ (λ k. some (same_text k, same_secret k)) in
    (
      write_fields 0 (m4_fields waiting.sid tau_a) (replicate 66 0),
      initiator_m4-Answered s documented ml_kem a b pair fetch puf now b_provisioned a_knows b_fits
            b_valid b_draws m0 m1 m3 waiting keys answered hb offered.sid_size
            (ml_kem.ciphertext_size public_key b_draws.kem_random answered.ciphertext
              answered.secret given)
            (sym same_hash)
            (ml_kem.opens a_draws.kem_random b_draws.kem_random public_key answered.ciphertext
              answered.secret waiting.key generated given)
          ∙ rw ht refl,
      responder_accepts-tag theirs b documented waiting.sid tau_a keys offered.sid_size ht,
    )

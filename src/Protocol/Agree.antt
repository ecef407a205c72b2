-- ===== src/Protocol/Agree.antt =====
-- ProposedUavProtocol.cpp: two honest nodes complete a session, from M1 to M4, with one set of keys.
use post_quantum_uav_uav.Prelude.{ℕ, ◌^◌, ◌<◌, ◌≡◌, refl, ◌∙◌, true, Option, some, List, length}
use post_quantum_uav_uav.Crypto.Sha.{hash-IsDigest}
use post_quantum_uav_uav.Protocol.Counter.{Nvs, reserve_q}
use post_quantum_uav_uav.Protocol.Greet.{IsNode}
use post_quantum_uav_uav.Protocol.Hello.{validate_m1}
use post_quantum_uav_uav.Protocol.Transcript.{domain_a_confirm}
use post_quantum_uav_uav.Protocol.Peer.{validate_peer_record}
use post_quantum_uav_uav.Protocol.Session.{Services, Node, Draws, AwaitingM3, initiator_m2}
use post_quantum_uav_uav.Protocol.Respond.{Keys, responder_m3, initiator_m4, responder_accepts}
use post_quantum_uav_uav.Protocol.Trust.{IsProvisioned, Knows}
use post_quantum_uav_uav.Protocol.Offer.{Pair, initiator_m2-Offered}
use post_quantum_uav_uav.Protocol.Honest.{IsMlKem, responder_before-initiator_m2}
use post_quantum_uav_uav.Protocol.KeyAgreement.{initiator_m4-responder_m3}
use post_quantum_uav_uav.Protocol.Live.{IsAble, compute_confirmation_tag_total}
use post_quantum_uav_uav.Protocol.Complete.{IsSeeded, initiator_m2_total, responder_m3_total}

-- The responder's services: its own repository, PUF and clock.
abbrev pub services_of : Services → (ℕ → ℕ → Option (List ℕ)) → Option (List ℕ) → ℕ → Services
services_of s fetch puf now = record s { fetch_peer_path = fetch; puf = puf; now = now }

-- A node whose tree is set up from a 16-byte identifier and a 32-byte seed that its PUF gives again,
-- with identities of 32 bytes.
pub record IsParty (s : Services) (node : Node) : Type 0 where
  pub provisioned : IsProvisioned s node
  pub seeded : IsSeeded s node provisioned
  pub named : IsNode node.config
  pub version_fits : node.config.credential_version < 2 ^ 32

module _ (s : Services) (able : IsAble s) (ml_kem : IsMlKem s.kem) (a b : Node) (pair : Pair a b)
    (fetch : ℕ → ℕ → Option (List ℕ)) (puf : Option (List ℕ)) (now : ℕ) (a_party : IsParty s a)
    (b_party : IsParty (services_of s fetch puf now) b)
    (b_knows : Knows s a a_party.provisioned b fetch)
    (a_knows : Knows (services_of s fetch puf now) b b_party.provisioned a s.fetch_peer_path)
    (b_valid : validate_peer_record b.config b.peer_record now a.config.credential_version ≡ true)
    (a_valid : validate_peer_record a.config a.peer_record s.now b.config.credential_version ≡ true)
    (a_draws b_draws : Draws) (a_random : length a_draws.sign_random ≡ 32)
    (b_random : length b_draws.sign_random ≡ 32) (a_nvs a_next b_nvs b_next : Nvs) (a_q b_q : ℕ)
    (a_reserved : reserve_q a.config a_draws.flash a_nvs ≡ (some a_q, a_next))
    (b_reserved : reserve_q b.config b_draws.flash b_nvs ≡ (some b_q, b_next))
    (m0 nonce_a m1 nonce_b : List ℕ)
    (m1_valid : validate_m1 a.config m1 nonce_a ≡ some nonce_b) where
  abbrev theirs : Services
  theirs = services_of s fetch puf now

  theirs-IsAble : IsAble theirs
  theirs-IsAble = record {
    documented = able.documented;
    reliable = able.reliable;
    hmac_reliable = able.hmac_reliable;
    generates = able.generates;
    answers = able.answers;
  }

  -- A session of two honest nodes goes through: where both have set up their trees from the seeds that
  -- their PUFs give again, hold each other's valid public records and obtain each other's paths,
  -- wolfSSL and ML-KEM work as documented and report no error, and each node has an index left, then
  -- the initiator answers a valid M1 with an M2, the responder that with an M3, the initiator that
  -- with an M4, the responder accepts it, and both have the same transcript hash, session key and
  -- confirmation keys. Each node's counter has moved by its one reservation.
  pub session_completes :
      (waiting : AwaitingM3 s a) × (keys : Keys) × (m3 : List ℕ) × (m4 : List ℕ) × (initiator_m2 s a
          a_draws a_nvs m0 nonce_a m1
        ≡ (some waiting, a_next))
      × (responder_m3 theirs b b_draws b_nvs m0 m1 waiting.sid waiting.m2
          ≡ (some (keys, m3), b_next))
      × (initiator_m4 s a m0 m1 waiting m3 ≡ some (keys, m4))
      × (responder_accepts theirs b waiting.sid keys m4 ≡ some tt)
  session_completes =
      let (waiting, sent) =
        initiator_m2_total s able ml_kem a b a_party.provisioned a_party.seeded a_party.named fetch
          puf now b_knows a_draws a_nvs a_next a_q m0 nonce_a m1 nonce_b a_party.version_fits
          a_random m1_valid a_reserved in
      let offered =
        initiator_m2-Offered s able.documented a a_draws a_nvs a_next m0 nonce_a m1 waiting sent in
      let (public_key, generated, before) =
        responder_before-initiator_m2 s able.documented ml_kem a b pair a_party.provisioned fetch
          puf now b_knows a_draws a_nvs a_next m0 nonce_a m1 b_draws.kem_random waiting
          a_party.version_fits b_valid a_random sent in
      let ((ciphertext, secret), answer) =
        able.answers public_key b_draws.kem_random
          (ml_kem.public_size a_draws.kem_random waiting.key public_key generated) in
      let ((keys, m3), answered) =
        responder_m3_total theirs theirs-IsAble b b_party.provisioned b_party.seeded b_party.named
          b_draws b_nvs b_next b_q m0 m1 waiting.sid waiting.m2 waiting.hash_m2 ciphertext secret
          b_random offered.sid_size
          (hash-IsDigest s.w able.documented waiting.m2 waiting.hash_m2 offered.hashed).0
          (ml_kem.ciphertext_size public_key b_draws.kem_random ciphertext secret answer)
          (before ∙ rw answer refl) b_reserved in
      let (tau_a, confirmed) =
        compute_confirmation_tag_total s.w able.documented able.reliable able.hmac_reliable
          domain_a_confirm keys.confirm_a keys.transcript_hash in
      let (m4, finished, accepted) =
        initiator_m4-responder_m3 s able.documented ml_kem a b pair fetch puf now
          a_party.provisioned b_knows b_party.provisioned a_knows a_draws b_draws a_nvs a_next b_nvs
          b_next m0 nonce_a m1 m3 tau_a waiting keys a_party.version_fits b_party.version_fits
          b_valid a_valid a_random b_random sent answered confirmed in
      (waiting, keys, m3, m4, sent, answered, finished, accepted)

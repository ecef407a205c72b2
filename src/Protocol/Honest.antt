-- ===== src/Protocol/Honest.antt =====
-- ProposedUavProtocol.cpp: a session between two honest nodes.
use post_quantum_uav_uav.Prelude.{
  ℕ, ◌^◌, ◌<◌, ◌≡◌, refl, sym, ap, ◌∙◌, true, Option, some, List, length, arith, ◌>>=◌, slice, drop,
  lt→ltb,
}
use post_quantum_uav_uav.Codec.{get_u32}
use post_quantum_uav_uav.Crypto.{IsDocumented}
use post_quantum_uav_uav.Protocol.Counter.{Nvs}
use post_quantum_uav_uav.Protocol.Peer.{
  MlKem, generate_key, answer_key, open_ciphertext, validate_peer_record,
}
use post_quantum_uav_uav.Protocol.Session.{
  Services, Node, Draws, AwaitingM3, initiator_m2, carried_path, is_headed,
}
use post_quantum_uav_uav.Protocol.Respond.{responder_before}
use post_quantum_uav_uav.Protocol.Read.{
  IsMessage, message, read_head, read_version, read_q, read_key, read_signature, read_path,
  sent_path,
}
use post_quantum_uav_uav.Protocol.Trust.{
  IsProvisioned, Knows, check_signature-sign_input, sign_input-sizes,
}
use post_quantum_uav_uav.Protocol.Offer.{
  Pair, same_m2_input, m2-joined, Offered, initiator_m2-Offered,
}

-- What ML-KEM documents: sizes, and that the ciphertext for a public key opens under its private key.
pub record IsMlKem (kem : MlKem) : Type 0 where
  pub public_size :
      (random : List ℕ) (key : kem.Key) (public_key : List ℕ)
      → generate_key kem random ≡ some (key, public_key)
      → length public_key ≡ 800
  pub ciphertext_size :
      (public_key random ciphertext secret : List ℕ)
      → answer_key kem public_key random ≡ some (ciphertext, secret)
      → length ciphertext ≡ 768
  pub opens :
      (random random' public_key ciphertext secret : List ℕ) (key : kem.Key)
      → generate_key kem random ≡ some (key, public_key)
      → answer_key kem public_key random' ≡ some (ciphertext, secret)
      → open_ciphertext kem key ciphertext ≡ some secret

module _ (s : Services) (documented : IsDocumented s.w) (ml_kem : IsMlKem s.kem) (a b : Node)
    (pair : Pair a b) (provisioned : IsProvisioned s a) (fetch : ℕ → ℕ → Option (List ℕ))
    (puf : Option (List ℕ)) (now : ℕ) (knows : Knows s a provisioned b fetch)
    (fits : a.config.credential_version < 2 ^ 32)
    (valid : validate_peer_record b.config b.peer_record now a.config.credential_version
      ≡ true) where
  -- The responder's services.
  abbrev theirs : Services
  theirs = record s { fetch_peer_path = fetch; puf = puf; now = now }

  offered_message :
      (draws : Draws) (waiting : AwaitingM3 s a) (offered : Offered s a draws waiting)
      → length draws.sign_random ≡ 32
      → IsMessage 0x12 800 a.config.path_mode waiting.sid a.config.credential_version offered.q
          offered.public_key offered.signature offered.path
  offered_message draws waiting offered hr =
      let (size, lt, path) =
        sign_input-sizes s documented a b provisioned fetch puf now knows offered.q _
          draws.sign_random offered.signature offered.path hr offered.signed in
      record {
        sid_size = offered.sid_size;
        key_size =
            ml_kem.public_size draws.kem_random waiting.key offered.public_key offered.generated;
        signature_size = size;
        path_size = path;
        version_fits = fits;
        q_fits = omega arith;
      }

  responder_before-Offered :
      (draws : Draws) (waiting : AwaitingM3 s a) (offered : Offered s a draws waiting)
      (random : List ℕ)
      → length draws.sign_random ≡ 32
      → responder_before theirs b waiting.sid waiting.m2 now random ≡ (
          answer_key s.kem offered.public_key random >>= λ answer.
          some (waiting.hash_m2, answer.0, answer.1))
  unfolding responder_before
  responder_before-Offered draws waiting offered random hr =
      let mode = a.config.path_mode in
      let version = a.config.credential_version in
      let m = offered_message draws waiting offered hr in
      let (size, lt, path) =
        sign_input-sizes s documented a b provisioned fetch puf now knows offered.q _
          draws.sign_random offered.signature offered.path hr offered.signed in
      let same : waiting.m2
          ≡ message 0x12 800 mode waiting.sid version offered.q offered.public_key offered.signature
              offered.path =
        offered.written
        ∙ m2-joined mode waiting.sid version offered.q offered.public_key offered.signature
            offered.path m in
      let head : is_headed 0x12 waiting.sid waiting.m2 ≡ true =
        ap (λ t. is_headed 0x12 waiting.sid t) same
        ∙ read_head 0x12 800 mode waiting.sid version offered.q offered.public_key offered.signature
            offered.path m in
      let version_read : get_u32 (drop 34 waiting.m2) ≡ version =
        ap (λ t. get_u32 (drop 34 t)) same
        ∙ read_version 0x12 800 mode waiting.sid version offered.q offered.public_key
            offered.signature offered.path m in
      let q_read : get_u32 (drop 38 waiting.m2) ≡ offered.q =
        ap (λ t. get_u32 (drop 38 t)) same
        ∙ read_q 0x12 800 mode waiting.sid version offered.q offered.public_key offered.signature
            offered.path m in
      let key_read : slice 42 800 waiting.m2 ≡ offered.public_key =
        ap (slice 42 800) same
        ∙ read_key 0x12 800 mode waiting.sid version offered.q offered.public_key offered.signature
            offered.path m in
      let signature_read : slice 842 2180 waiting.m2 ≡ offered.signature =
        ap (slice 842 2180) same
        ∙ read_signature 0x12 800 mode waiting.sid version offered.q offered.public_key
            offered.signature offered.path m in
      let path_read : carried_path b.config.path_mode 3022 waiting.m2
          ≡ sent_path mode offered.path =
        (λ k. carried_path (knows.mode k) 3022 (same k))
        ∙ read_path 0x12 800 mode waiting.sid version offered.q offered.public_key offered.signature
            offered.path m in
      rw
        (
          head,
          version_read,
          q_read,
          lt→ltb offered.q 1024 lt,
          valid,
          offered.hashed,
          path_read,
          key_read,
          signature_read,
          sym (same_m2_input a b pair waiting.sid version offered.q offered.public_key),
          check_signature-sign_input s documented a b provisioned fetch puf now knows offered.q _
              draws.sign_random offered.signature offered.path hr offered.signed,
        )
        refl

-- The responder takes an honest initiator's M2: where the initiator set up its tree from the seed that
-- its PUF gives again, the responder holds its public record and can obtain its paths, the record is
-- valid, and digests and ML-KEM are as documented, M2 passes every check of the responder, the
-- signature and the Merkle path included, so that only its own ML-KEM calls can still fail.
pub responder_before-initiator_m2 :
    (s : Services) (documented : IsDocumented s.w) (ml_kem : IsMlKem s.kem) (a b : Node)
    (pair : Pair a b) (provisioned : IsProvisioned s a) (fetch : ℕ → ℕ → Option (List ℕ))
    (puf : Option (List ℕ)) (now : ℕ) (knows : Knows s a provisioned b fetch) (draws : Draws)
    (nvs next : Nvs) (m0 nonce_a m1 random : List ℕ) (waiting : AwaitingM3 s a)
    → a.config.credential_version < 2 ^ 32
    → validate_peer_record b.config b.peer_record now a.config.credential_version ≡ true
    → length draws.sign_random ≡ 32
    → initiator_m2 s a draws nvs m0 nonce_a m1 ≡ (some waiting, next)
    → (public_key : List ℕ) × (generate_key s.kem draws.kem_random ≡ some (waiting.key, public_key))
      × (responder_before
            (record s { fetch_peer_path = fetch; puf = puf; now = now })
            b
            waiting.sid
            waiting.m2
            now
            random
          ≡ (answer_key s.kem public_key random >>= λ answer.
              some (waiting.hash_m2, answer.0, answer.1)))
responder_before-initiator_m2 s documented ml_kem a b pair provisioned fetch puf now knows draws nvs
      next m0 nonce_a m1 random waiting fits valid hr e =
    let offered = initiator_m2-Offered s documented a draws nvs next m0 nonce_a m1 waiting e in
    (
      offered.public_key,
      offered.generated,
      responder_before-Offered s documented ml_kem a b pair provisioned fetch puf now knows fits
          valid draws waiting offered random hr,
    )

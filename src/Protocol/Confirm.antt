-- ===== src/Protocol/Confirm.antt =====
-- ProposedUavProtocol.cpp: two honest nodes confirm one set of keys.
use post_quantum_uav_uav.Prelude.{
  ℕ, ◌+◌, ◌^◌, ◌<◌, ◌≡◌, refl, sym, ap, ◌∙◌, true, Option, some, List, length, arith, ◌>>=◌,
  ==_refl, slice, drop, lt→ltb, joined, write_fields, replicate, Sized,
}
use post_quantum_uav_uav.Codec.{get_u16}
use post_quantum_uav_uav.Codec.Compare.{constant_time_equal_refl}
use post_quantum_uav_uav.Crypto.{IsDocumented}
use post_quantum_uav_uav.Protocol.Config.{
  PathDeliveryMode, m3_bytes_for_mode, m3_inner_bytes_for_mode,
}
use post_quantum_uav_uav.Protocol.Signed.{build_m3_signed_input}
use post_quantum_uav_uav.Protocol.Transcript.{
  compute_confirmation_tag, domain_a_confirm, domain_b_confirm,
}
use post_quantum_uav_uav.Protocol.Peer.{open_ciphertext, validate_peer_record}
use post_quantum_uav_uav.Protocol.Session.{
  Services, Node, Draws, AwaitingM3, carried_path, is_headed, check_signature, m3_fields, m4_fields,
  path_field,
}
use post_quantum_uav_uav.Protocol.Respond.{Keys, derive_keys, initiator_m4}
use post_quantum_uav_uav.Protocol.Read.{
  IsMessage, message, read_head, read_version, read_q, read_key, read_signature, read_path,
  sent_path,
}
use post_quantum_uav_uav.Protocol.Trust.{
  IsProvisioned, Knows, check_signature-sign_input, sign_input-sizes,
}
use post_quantum_uav_uav.Protocol.Offer.{Pair, same_m3_input}
use post_quantum_uav_uav.Protocol.Honest.{IsMlKem}
use post_quantum_uav_uav.Protocol.Answer.{
  compute_confirmation_tag-size, inner-joined, inner-size, m3_head, m3_length, m3_inner, m3_tau,
  m3-joined,
}
use post_quantum_uav_uav.Protocol.Answered.{Answered, inner_of}

-- The transcript and the keys do not depend on which node derives them.
derive_keys_same :
    (s : Services) (a b : Node) (sid m0 m1 m2 inner secret : List ℕ)
    → a.config.path_mode ≡ b.config.path_mode
    → derive_keys s a sid m0 m1 m2 inner secret ≡ derive_keys s b sid m0 m1 m2 inner secret
unfolding derive_keys
derive_keys_same s a b sid m0 m1 m2 inner secret mode = rw mode refl

derive_keys_services :
    (s : Services) (b : Node) (fetch : ℕ → ℕ → Option (List ℕ)) (puf : Option (List ℕ)) (now : ℕ)
    (sid m0 m1 m2 inner secret : List ℕ)
    → derive_keys s b sid m0 m1 m2 inner secret
      ≡ derive_keys
          (record s { fetch_peer_path = fetch; puf = puf; now = now })
          b
          sid
          m0
          m1
          m2
          inner
          secret
unfolding derive_keys
derive_keys_services s b fetch puf now sid m0 m1 m2 inner secret = refl

module _ (s : Services) (documented : IsDocumented s.w) (ml_kem : IsMlKem s.kem) (a b : Node)
    (pair : Pair a b) (fetch : ℕ → ℕ → Option (List ℕ)) (puf : Option (List ℕ)) (now : ℕ)
    (provisioned : IsProvisioned (record s { fetch_peer_path = fetch; puf = puf; now = now }) b)
    (knows : Knows
      (record s { fetch_peer_path = fetch; puf = puf; now = now })
      b
      provisioned
      a
      s.fetch_peer_path)
    (fits : b.config.credential_version < 2 ^ 32)
    (valid : validate_peer_record a.config a.peer_record s.now b.config.credential_version
      ≡ true) where
  abbrev theirs : Services
  theirs = record s { fetch_peer_path = fetch; puf = puf; now = now }

  module _ (draws : Draws) (m0 m1 m3 : List ℕ) (waiting : AwaitingM3 s a) (keys : Keys)
      (answered : Answered theirs b draws m0 m1 waiting.sid waiting.m2 m3 keys)
      (hr : length draws.sign_random ≡ 32) (hs : length waiting.sid ≡ 32)
      (hc : length answered.ciphertext ≡ 768) (hashes : answered.hash_m2 ≡ waiting.hash_m2)
      (opened : open_ciphertext s.kem waiting.key answered.ciphertext ≡ some answered.secret) where
    abbrev mode : PathDeliveryMode
    mode = b.config.path_mode

    abbrev version : ℕ
    version = b.config.credential_version

    abbrev inner : List ℕ
    inner =
        message 0x14 768 mode waiting.sid version answered.q answered.ciphertext answered.signature
          answered.path

    sizes :
        (length answered.signature ≡ 2180)
        × (answered.q < 1024)
        × Sized (path_field mode answered.path)
    sizes =
        sign_input-sizes theirs documented b a provisioned s.fetch_peer_path s.puf s.now knows
          answered.q _ draws.sign_random answered.signature answered.path hr answered.signed

    inner_message :
        IsMessage 0x14 768 mode waiting.sid version answered.q answered.ciphertext
          answered.signature answered.path
    inner_message = record {
      sid_size = hs;
      key_size = hc;
      signature_size = sizes.0;
      path_size = sizes.2;
      version_fits = fits;
      q_fits = omega (arith, sizes.1);
    }

    inner_same :
        inner_of b waiting.sid answered.q answered.ciphertext answered.signature answered.path
        ≡ inner
    inner_same =
        inner-joined mode waiting.sid version answered.q answered.ciphertext answered.signature
          answered.path inner_message

    inner_size : length inner ≡ m3_inner_bytes_for_mode mode
    inner_size =
        inner-size mode waiting.sid version answered.q answered.ciphertext answered.signature
          answered.path inner_message

    tau_size : length answered.tau_b ≡ 32
    tau_size =
        compute_confirmation_tag-size s.w documented domain_b_confirm keys.confirm_b
          keys.transcript_hash answered.tau_b answered.confirmed

    m3_same : m3 ≡ joined (m3_fields mode waiting.sid inner answered.tau_b)
    m3_same =
        answered.written
        ∙ ap
            (λ i.
              write_fields 0 (m3_fields mode waiting.sid i answered.tau_b)
                (replicate (m3_bytes_for_mode mode) 0))
            inner_same
        ∙ m3-joined mode waiting.sid inner answered.tau_b hs inner_size tau_size

    derived : derive_keys s a waiting.sid m0 m1 waiting.m2 inner answered.secret ≡ some keys
    derived =
        derive_keys_same s a b waiting.sid m0 m1 waiting.m2 inner answered.secret knows.mode
        ∙ same_services
        ∙ ap (λ i. derive_keys theirs b waiting.sid m0 m1 waiting.m2 i answered.secret)
            (sym inner_same)
        ∙ answered.derived
      where
        same_services :
            derive_keys s b waiting.sid m0 m1 waiting.m2 inner answered.secret
            ≡ derive_keys theirs b waiting.sid m0 m1 waiting.m2 inner answered.secret
        same_services =
            derive_keys_services s b fetch puf now waiting.sid m0 m1 waiting.m2 inner
              answered.secret

    checked_signature :
        check_signature s a version answered.q
          (sent_path mode answered.path)
          (build_m3_signed_input a.config waiting.sid waiting.hash_m2 version answered.q
            answered.ciphertext)
          answered.signature
        ≡ some tt
    checked_signature =
        ap
          (λ i.
            check_signature s a version answered.q (sent_path mode answered.path) i
              answered.signature)
          (same_m3_input a b pair waiting.sid waiting.hash_m2 version answered.q answered.ciphertext
            ∙ ap
                (λ h.
                  build_m3_signed_input b.config waiting.sid h version answered.q
                    answered.ciphertext)
                (sym hashes))
        ∙ check_signature-sign_input theirs documented b a provisioned s.fetch_peer_path s.puf s.now
            knows answered.q _ draws.sign_random answered.signature answered.path hr answered.signed

    pub initiator_m4-Answered : initiator_m4 s a m0 m1 waiting m3 ≡ (
        compute_confirmation_tag s.w domain_a_confirm keys.confirm_a keys.transcript_hash
        >>= λ tau_a. some (keys, write_fields 0 (m4_fields waiting.sid tau_a) (replicate 66 0)))
    unfolding initiator_m4
    initiator_m4-Answered =
        let head : is_headed 0x13 waiting.sid m3 ≡ true =
          ap (λ t. is_headed 0x13 waiting.sid t) m3_same
          ∙ m3_head mode waiting.sid inner answered.tau_b hs inner_size tau_size in
        let length_read : get_u16 (drop 34 m3) ≡ m3_inner_bytes_for_mode a.config.path_mode =
          ap (λ t. get_u16 (drop 34 t)) m3_same
          ∙ m3_length mode waiting.sid inner answered.tau_b hs inner_size tau_size
          ∙ sym (ap m3_inner_bytes_for_mode knows.mode) in
        let inner_read : slice 36 (m3_inner_bytes_for_mode a.config.path_mode) m3 ≡ inner =
          (λ k. slice 36 (m3_inner_bytes_for_mode (knows.mode k)) m3)
          ∙ ap (slice 36 (m3_inner_bytes_for_mode mode)) m3_same
          ∙ m3_inner mode waiting.sid inner answered.tau_b hs inner_size tau_size in
        let tau_read : slice (36 + m3_inner_bytes_for_mode a.config.path_mode) 32 m3
            ≡ answered.tau_b =
          (λ k. slice (36 + m3_inner_bytes_for_mode (knows.mode k)) 32 m3)
          ∙ ap (slice (36 + m3_inner_bytes_for_mode mode) 32) m3_same
          ∙ m3_tau mode waiting.sid inner answered.tau_b hs inner_size tau_size in
        let path_read : carried_path a.config.path_mode 2990 inner ≡ sent_path mode answered.path =
          (λ k. carried_path (knows.mode k) 2990 inner)
          ∙ read_path 0x14 768 mode waiting.sid version answered.q answered.ciphertext
              answered.signature answered.path inner_message in
        rw
          (
            head,
            length_read,
            ==_refl (m3_inner_bytes_for_mode a.config.path_mode),
            inner_read,
            tau_read,
            read_head 0x14 768 mode waiting.sid version answered.q answered.ciphertext
                answered.signature answered.path inner_message,
            read_version 0x14 768 mode waiting.sid version answered.q answered.ciphertext
                answered.signature answered.path inner_message,
            read_q 0x14 768 mode waiting.sid version answered.q answered.ciphertext
                answered.signature answered.path inner_message,
            read_key 0x14 768 mode waiting.sid version answered.q answered.ciphertext
                answered.signature answered.path inner_message,
            read_signature 0x14 768 mode waiting.sid version answered.q answered.ciphertext
                answered.signature answered.path inner_message,
            path_read,
            lt→ltb answered.q 1024 sizes.1,
            valid,
            checked_signature,
            opened,
            derived,
            answered.confirmed,
            constant_time_equal_refl answered.tau_b 32,
          )
          refl

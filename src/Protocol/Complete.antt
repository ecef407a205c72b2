-- ===== src/Protocol/Complete.antt =====
-- ProposedUavProtocol.cpp: a session between two honest nodes goes through to its end.
use post_quantum_uav_uav.Prelude.{
  ℕ, ◌^◌, ◌≤◌, ◌<◌, ◌≡◌, refl, ap, ◌∙◌, Option, some, List, length, arith, joined, length-joined,
  write_fields, replicate,
}
use post_quantum_uav_uav.Crypto.{WolfCrypt, IsDocumented, hash}
use post_quantum_uav_uav.Crypto.Sha.{hash_total, sha256-IsDigest, succeeded-eq-some}
use post_quantum_uav_uav.Protocol.Config.{
  NodeConfig, PathDeliveryMode, signer_carried, repository_assisted, m2_bytes_for_mode,
  m3_inner_bytes_for_mode, m3_bytes_for_mode,
}
use post_quantum_uav_uav.Protocol.Counter.{Nvs, reserve_q}
use post_quantum_uav_uav.Protocol.Greet.{IsNode}
use post_quantum_uav_uav.Protocol.Hello.{validate_m1}
use post_quantum_uav_uav.Protocol.Signed.{build_m2_signed_input, build_m3_signed_input}
use post_quantum_uav_uav.Protocol.Domains.{
  wrapped, wrapped-Sized, init_fields, init-size, resp_fields, resp-size,
  build_m2_signed_input-wrapped, build_m3_signed_input-wrapped,
}
use post_quantum_uav_uav.Protocol.Transcript.{compute_sid0, sid0_input, domain_b_confirm}
use post_quantum_uav_uav.Protocol.Session.{
  Services, Node, Draws, AwaitingM3, initiator_before, initiator_after, initiator_m2, m2_fields,
  m3_fields, m3_inner_fields, signed_fields,
}
use post_quantum_uav_uav.Protocol.Respond.{Keys, responder_before, responder_after, responder_m3}
use post_quantum_uav_uav.Protocol.Read.{IsMessage, message, message-Sized}
use post_quantum_uav_uav.Protocol.Trust.{IsProvisioned, Knows, sign_input-sizes}
use post_quantum_uav_uav.Protocol.Offer.{m2-joined}
use post_quantum_uav_uav.Protocol.Honest.{IsMlKem}
use post_quantum_uav_uav.Protocol.Live.{
  IsAble, compute_sid0_total, compute_confirmation_tag_total, derive_keys_total, sign_input_total,
  reserve_q-lt,
}

compute_sid0-size :
    (w : WolfCrypt) (documented : IsDocumented w) (m0 m1 sid : List ℕ)
    → compute_sid0 w m0 m1 ≡ some sid
    → length sid ≡ 32
unfolding compute_sid0
compute_sid0-size w documented m0 m1 sid e =
    (sha256-IsDigest w documented (some (sid0_input m0 m1)) 194 sid (succeeded-eq-some _ e)).0

-- The identifier and the seed of a tree have their sizes.
pub record IsSeeded (s : Services) (node : Node) (provisioned : IsProvisioned s node) : Type 0 where
  pub identifier_size : length provisioned.identifier ≡ 16
  pub seed_size : length provisioned.seed ≡ 32

m2_input-size :
    (config : NodeConfig)
    → IsNode config
    → (sid : List ℕ) (version q : ℕ) (key : List ℕ) → length sid ≡ 32
    → length key ≡ 800
    → length (build_m2_signed_input config sid version q key) ≤ 970
m2_input-size config node sid version q key hs hk =
    let mu = joined (init_fields config sid version key) in
    omega (
      arith,
      ap length (build_m2_signed_input-wrapped config node sid hs version key hk q),
      length-joined (wrapped mu q)
          (wrapped-Sized mu q (init-size config node sid hs version key hk)),
    )

m3_input-size :
    (config : NodeConfig)
    → IsNode config
    → (sid hash_m2 : List ℕ) (version q : ℕ) (text : List ℕ) → length sid ≡ 32
    → length hash_m2 ≡ 32
    → length text ≡ 768
    → length (build_m3_signed_input config sid hash_m2 version q text) ≤ 970
m3_input-size config node sid hash_m2 version q text hs hh ht =
    let mu = joined (resp_fields config sid hash_m2 version text) in
    omega (
      arith,
      ap length (build_m3_signed_input-wrapped config node sid hs hash_m2 hh version text ht q),
      length-joined (wrapped mu q)
          (wrapped-Sized mu q (resp-size config node sid hs hash_m2 hh version text ht)),
    )

m2-size :
    (mode : PathDeliveryMode) (sid : List ℕ) (version q : ℕ) (key signature path : List ℕ)
    → IsMessage 0x12 800 mode sid version q key signature path
    → length (message 0x12 800 mode sid version q key signature path) ≤ 4294967295
m2-size signer_carried sid version q key signature path m = omega (
  arith,
  length-joined (signed_fields 0x12 800 signer_carried sid version q key signature path)
      (message-Sized 0x12 800 signer_carried sid version q key signature path m),
)
m2-size repository_assisted sid version q key signature path m = omega (
  arith,
  length-joined (signed_fields 0x12 800 repository_assisted sid version q key signature path)
      (message-Sized 0x12 800 repository_assisted sid version q key signature path m),
)

module _ (s : Services) (able : IsAble s) (ml_kem : IsMlKem s.kem) (a b : Node)
    (provisioned : IsProvisioned s a) (seeded : IsSeeded s a provisioned) (node : IsNode a.config)
    (fetch : ℕ → ℕ → Option (List ℕ)) (puf : Option (List ℕ)) (now : ℕ)
    (knows : Knows s a provisioned b fetch) where
  initiator_after_total :
      (sid : List ℕ) (key : s.kem.Key) (public_key random : List ℕ) (q : ℕ)
      → length sid ≡ 32
      → length public_key ≡ 800
      → a.config.credential_version < 2 ^ 32
      → q < 1024
      → length random ≡ 32
      → (waiting : AwaitingM3 s a) × (initiator_after s a sid key public_key random q
          ≡ some waiting)
  unfolding initiator_after
  initiator_after_total sid key public_key random q hs hk hv hq hr =
      let version = a.config.credential_version in
      let mode = a.config.path_mode in
      let input = build_m2_signed_input a.config sid version q public_key in
      let ((signature, path), signed) =
        sign_input_total s able a provisioned q input random seeded.identifier_size seeded.seed_size
          hq (m2_input-size a.config node sid version q public_key hs hk) hr in
      let (size, lt, path_size) =
        sign_input-sizes s able.documented a b provisioned fetch puf now knows q input random
          signature path hr signed in
      let m : IsMessage 0x12 800 mode sid version q public_key signature path = record {
        sid_size = hs;
        key_size = hk;
        signature_size = size;
        path_size = path_size;
        version_fits = hv;
        q_fits = omega arith;
      } in
      let same = m2-joined mode sid version q public_key signature path m in
      let (digest, hashed) =
        hash_total s.w able.reliable (message 0x12 800 mode sid version q public_key signature path)
          (m2-size mode sid version q public_key signature path m) in
      let hashed' = ap (hash s.w) same ∙ hashed in
      (
        record {
          sid = sid;
          key = key;
          m2 =
              write_fields 0 (m2_fields mode sid version q public_key signature path)
                (replicate (m2_bytes_for_mode mode) 0);
          hash_m2 = digest;
        },
        rw (signed, hashed') refl,
      )

  pub initiator_m2_total :
      (draws : Draws) (nvs next : Nvs) (q : ℕ) (m0 nonce_a m1 nonce_b : List ℕ)
      → a.config.credential_version < 2 ^ 32
      → length draws.sign_random ≡ 32
      → validate_m1 a.config m1 nonce_a ≡ some nonce_b
      → reserve_q a.config draws.flash nvs ≡ (some q, next)
      → (waiting : AwaitingM3 s a) × (initiator_m2 s a draws nvs m0 nonce_a m1
          ≡ (some waiting, next))
  unfolding initiator_m2 initiator_before
  initiator_m2_total draws nvs next q m0 nonce_a m1 nonce_b hv hr valid reserved =
      let (sid, hs) =
        compute_sid0_total s.w able.documented able.reliable able.hmac_reliable m0 m1 in
      let ((key, public_key), generated) = able.generates draws.kem_random in
      let (waiting, after) =
        initiator_after_total sid key public_key draws.sign_random q
          (compute_sid0-size s.w able.documented m0 m1 sid hs)
          (ml_kem.public_size draws.kem_random key public_key generated) hv
          (reserve_q-lt a.config draws.flash nvs next q reserved) hr in
      (waiting, rw (valid, hs, generated, reserved, after) refl)

module _ (s : Services) (able : IsAble s) (b : Node) (provisioned : IsProvisioned s b)
    (seeded : IsSeeded s b provisioned) (node : IsNode b.config) where
  responder_after_total :
      (m0 m1 sid m2 hash_m2 ciphertext secret random : List ℕ) (q : ℕ)
      → length sid ≡ 32
      → length hash_m2 ≡ 32
      → length ciphertext ≡ 768
      → q < 1024
      → length random ≡ 32
      → (answer : Keys × List ℕ) × (responder_after s b m0 m1 sid m2
            (hash_m2, ciphertext, secret)
            random
            q
          ≡ some answer)
  unfolding responder_after
  responder_after_total m0 m1 sid m2 hash_m2 ciphertext secret random q hs hh hc hq hr =
      let version = b.config.credential_version in
      let mode = b.config.path_mode in
      let input = build_m3_signed_input b.config sid hash_m2 version q ciphertext in
      let ((signature, path), signed) =
        sign_input_total s able b provisioned q input random seeded.identifier_size seeded.seed_size
          hq (m3_input-size b.config node sid hash_m2 version q ciphertext hs hh hc) hr in
      let inner =
        write_fields 0 (m3_inner_fields mode sid version q ciphertext signature path)
          (replicate (m3_inner_bytes_for_mode mode) 0) in
      let (keys, derived) = derive_keys_total s able b sid m0 m1 m2 inner secret in
      let (tau_b, confirmed) =
        compute_confirmation_tag_total s.w able.documented able.reliable able.hmac_reliable
          domain_b_confirm keys.confirm_b keys.transcript_hash in
      (
        (
          keys,
          write_fields 0 (m3_fields mode sid inner tau_b) (replicate (m3_bytes_for_mode mode) 0),
        ),
        rw (signed, derived, confirmed) refl,
      )

  pub responder_m3_total :
      (draws : Draws) (nvs next : Nvs) (q : ℕ) (m0 m1 sid m2 hash_m2 ciphertext secret : List ℕ)
      → length draws.sign_random ≡ 32
      → length sid ≡ 32
      → length hash_m2 ≡ 32
      → length ciphertext ≡ 768
      → responder_before s b sid m2 s.now draws.kem_random ≡ some (hash_m2, ciphertext, secret)
      → reserve_q b.config draws.flash nvs ≡ (some q, next)
      → (answer : Keys × List ℕ) × (responder_m3 s b draws nvs m0 m1 sid m2 ≡ (some answer, next))
  unfolding responder_m3
  responder_m3_total draws nvs next q m0 m1 sid m2 hash_m2 ciphertext secret hr hs hh hc before
        reserved =
      let (answer, after) =
        responder_after_total m0 m1 sid m2 hash_m2 ciphertext secret draws.sign_random q hs hh hc
          (reserve_q-lt b.config draws.flash nvs next q reserved) hr in
      (answer, rw (before, reserved, after) refl)

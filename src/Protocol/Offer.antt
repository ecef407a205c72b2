-- ===== src/Protocol/Offer.antt =====
-- ProposedUavProtocol.cpp: the responder accepts the M2 that an honest initiator sends.
use post_quantum_uav_uav.Prelude.{
  ℕ, ◌≡◌, refl, sym, ap, ◌∙◌, subst, Option, some, none, List, length, >>=-eq-some, write_fields,
  write_fields-zeros, replicate,
}
use post_quantum_uav_uav.Crypto.{IsDocumented, hash}
use post_quantum_uav_uav.Crypto.Sha.{sha256-IsDigest, succeeded-eq-some}
use post_quantum_uav_uav.Protocol.Config.{
  NodeConfig, initiator, responder, PathDeliveryMode, signer_carried, repository_assisted,
  m2_bytes_for_mode,
}
use post_quantum_uav_uav.Protocol.Accept.{Mirrors}
use post_quantum_uav_uav.Protocol.Hello.{validate_m1}
use post_quantum_uav_uav.Protocol.Transcript.{compute_sid0, sid0_input}
use post_quantum_uav_uav.Protocol.Counter.{Nvs, FlashAnswer, reserve_q}
use post_quantum_uav_uav.Protocol.Signed.{id_a, id_b, build_m2_signed_input, build_m3_signed_input}
use post_quantum_uav_uav.Protocol.Peer.{generate_key}
use post_quantum_uav_uav.Protocol.Session.{
  Services, Node, Draws, AwaitingM3, initiator_before, initiator_after, initiator_m2, m2_fields,
  signed_fields, sign_input, with_index,
}
use post_quantum_uav_uav.Protocol.Read.{IsMessage, message, message-Sized}

-- An initiator and a responder of one session.
pub record Pair (a b : Node) : Type 0 where
  pub a_role : a.config.role ≡ initiator
  pub b_role : b.config.role ≡ responder
  pub mirrors : Mirrors b.config a.config

module _ (a b : Node) (pair : Pair a b) where
  same_a : id_a a.config ≡ id_a b.config
  same_a = rw (pair.a_role, pair.b_role) pair.mirrors.sender

  same_b : id_b a.config ≡ id_b b.config
  same_b = rw (pair.a_role, pair.b_role) pair.mirrors.receiver

  -- Both build the same inputs for signatures.
  pub same_m2_input :
      (sid : List ℕ) (version q : ℕ) (key : List ℕ)
      → build_m2_signed_input a.config sid version q key
        ≡ build_m2_signed_input b.config sid version q key
  unfolding build_m2_signed_input
  same_m2_input sid version q key = rw (same_a, same_b) refl

  pub same_m3_input :
      (sid hash_m2 : List ℕ) (version q : ℕ) (text : List ℕ)
      → build_m3_signed_input a.config sid hash_m2 version q text
        ≡ build_m3_signed_input b.config sid hash_m2 version q text
  unfolding build_m3_signed_input
  same_m3_input sid hash_m2 version q text = rw (same_a, same_b) refl

-- The bytes of M2 and of M3's inner part are their fields.
pub m2-joined :
    (mode : PathDeliveryMode) (sid : List ℕ) (version q : ℕ) (key signature path : List ℕ)
    → IsMessage 0x12 800 mode sid version q key signature path
    → write_fields 0
        (m2_fields mode sid version q key signature path)
        (replicate (m2_bytes_for_mode mode) 0)
      ≡ message 0x12 800 mode sid version q key signature path
m2-joined signer_carried sid version q key signature path m =
    write_fields-zeros (signed_fields 0x12 800 signer_carried sid version q key signature path) 3342
      (message-Sized 0x12 800 signer_carried sid version q key signature path m) refl
m2-joined repository_assisted sid version q key signature path m =
    write_fields-zeros (signed_fields 0x12 800 repository_assisted sid version q key signature path)
      3022 (message-Sized 0x12 800 repository_assisted sid version q key signature path m) refl

pub with_index-some {ℓ κ} :
    {A : Type ℓ} {B : Type κ} (config : NodeConfig) (flash : FlashAnswer) (nvs next : Nvs)
    (m : Option A) (rest : A → ℕ → Option B) {b : B}
    → with_index config flash nvs m rest ≡ (some b, next)
    → (a : A) × (q : ℕ) × (m ≡ some a)
      × ((reserve_q config flash nvs).0 ≡ some q)
      × (rest a q ≡ some b)
with_index-some config flash nvs next none rest e = cc (ap (λ r. r.0) e)
with_index-some config flash nvs next (some a) rest e =
    let (q, hq, after) = >>=-eq-some (reserve_q config flash nvs).0 (rest a) (ap (λ r. r.0) e) in
    (a, q, refl, hq, after)

-- What an initiator has done when it sends M2.
pub record Offered (s : Services) (a : Node) (draws : Draws) (waiting : AwaitingM3 s a)
    : Type 0 where
  pub sid_size : length waiting.sid ≡ 32
  pub public_key : List ℕ
  pub q : ℕ
  pub signature : List ℕ
  pub path : List ℕ
  pub generated : generate_key s.kem draws.kem_random ≡ some (waiting.key, public_key)
  pub signed :
      sign_input s a q
        (build_m2_signed_input a.config waiting.sid a.config.credential_version q public_key)
        draws.sign_random
      ≡ some (signature, path)
  pub written :
      waiting.m2
      ≡ write_fields 0
          (m2_fields a.config.path_mode waiting.sid a.config.credential_version q public_key
            signature path)
          (replicate (m2_bytes_for_mode a.config.path_mode) 0)
  pub hashed : hash s.w waiting.m2 ≡ some waiting.hash_m2

initiator_after-Offered :
    (s : Services) (a : Node) (draws : Draws) (sid : List ℕ) (key : s.kem.Key) (public_key : List ℕ)
    (q : ℕ) (waiting : AwaitingM3 s a)
    → length sid ≡ 32
    → generate_key s.kem draws.kem_random ≡ some (key, public_key)
    → initiator_after s a sid key public_key draws.sign_random q ≡ some waiting
    → Offered s a draws waiting
unfolding initiator_after
initiator_after-Offered s a draws sid key public_key q waiting hs generated e =
    let version = a.config.credential_version in
    let ((signature, path), made, e1) =
      >>=-eq-some
        (sign_input s a q (build_m2_signed_input a.config sid version q public_key)
          draws.sign_random)
        _ e in
    let m2 =
      write_fields 0 (m2_fields a.config.path_mode sid version q public_key signature path)
        (replicate (m2_bytes_for_mode a.config.path_mode) 0) in
    let (hash_m2, hh, e2) = >>=-eq-some (hash s.w m2) _ e1 in
    let done : AwaitingM3 s a = record { sid = sid; key = key; m2 = m2; hash_m2 = hash_m2 } in
    let same : done ≡ waiting = cc in
    subst (Offered s a draws) same record {
      sid_size = hs;
      public_key = public_key;
      q = q;
      signature = signature;
      path = path;
      generated = generated;
      signed = made;
      written = refl;
      hashed = hh;
    }

initiator_before-generated :
    (s : Services) (documented : IsDocumented s.w) (a : Node) (m0 nonce_a m1 random sid : List ℕ)
    (key : s.kem.Key) (public_key : List ℕ)
    → initiator_before s a m0 nonce_a m1 random ≡ some (sid, key, public_key)
    → (length sid ≡ 32) × (generate_key s.kem random ≡ some (key, public_key))
unfolding initiator_before compute_sid0
initiator_before-generated s documented a m0 nonce_a m1 random sid key public_key e =
    let (nonce_b, hn, e1) = >>=-eq-some (validate_m1 a.config m1 nonce_a) _ e in
    let (found, hf, e2) = >>=-eq-some (compute_sid0 s.w m0 m1) _ e1 in
    let ((k, p), hp, e3) = >>=-eq-some (generate_key s.kem random) _ e2 in
    let same_key : k ≡ key = cc in
    let same_public : p ≡ public_key = cc in
    let same_sid : found ≡ sid = cc in
    let digest =
      sha256-IsDigest s.w documented (some (sid0_input m0 m1)) 194 found (succeeded-eq-some _ hf) in
    (sym (ap (λ l. length l) same_sid) ∙ digest.0, hp ∙ (λ i. some (same_key i, same_public i)))

pub initiator_m2-Offered :
    (s : Services) (documented : IsDocumented s.w) (a : Node) (draws : Draws) (nvs next : Nvs)
    (m0 nonce_a m1 : List ℕ) (waiting : AwaitingM3 s a)
    → initiator_m2 s a draws nvs m0 nonce_a m1 ≡ (some waiting, next)
    → Offered s a draws waiting
unfolding initiator_m2
initiator_m2-Offered s documented a draws nvs next m0 nonce_a m1 waiting e =
    let ((sid, key, public_key), q, before, reserved, after) =
      with_index-some a.config draws.flash nvs next
        (initiator_before s a m0 nonce_a m1 draws.kem_random) _ e in
    let (size, generated) =
      initiator_before-generated s documented a m0 nonce_a m1 draws.kem_random sid key public_key
        before in
    initiator_after-Offered s a draws sid key public_key q waiting size generated after

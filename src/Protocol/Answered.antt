-- ===== src/Protocol/Answered.antt =====
-- ProposedUavProtocol.cpp: what a responder has done when it sends M3.
use post_quantum_uav_uav.Prelude.{
  ℕ, ◌≡◌, sym, subst, some, List, >>=-eq-some, write_fields, replicate,
}
use post_quantum_uav_uav.Protocol.Config.{m3_bytes_for_mode, m3_inner_bytes_for_mode}
use post_quantum_uav_uav.Protocol.Counter.{Nvs}
use post_quantum_uav_uav.Protocol.Signed.{build_m3_signed_input}
use post_quantum_uav_uav.Protocol.Transcript.{compute_confirmation_tag, domain_b_confirm}
use post_quantum_uav_uav.Protocol.Session.{
  Services, Node, Draws, m3_inner_fields, m3_fields, sign_input,
}
use post_quantum_uav_uav.Protocol.Respond.{
  Keys, derive_keys, responder_before, responder_after, responder_m3,
}
use post_quantum_uav_uav.Protocol.Offer.{with_index-some}

abbrev pub inner_of : Node → List ℕ → ℕ → List ℕ → List ℕ → List ℕ → List ℕ
inner_of b sid q ciphertext signature path =
    write_fields 0
      (m3_inner_fields b.config.path_mode sid b.config.credential_version q ciphertext signature
        path)
      (replicate (m3_inner_bytes_for_mode b.config.path_mode) 0)

pub record Answered (s : Services) (b : Node) (draws : Draws) (m0 m1 sid m2 m3 : List ℕ)
    (keys : Keys) : Type 0 where
  pub hash_m2 : List ℕ
  pub ciphertext : List ℕ
  pub secret : List ℕ
  pub q : ℕ
  pub signature : List ℕ
  pub path : List ℕ
  pub tau_b : List ℕ
  pub before :
      responder_before s b sid m2 s.now draws.kem_random ≡ some (hash_m2, ciphertext, secret)
  pub signed :
      sign_input s b q
        (build_m3_signed_input b.config sid hash_m2 b.config.credential_version q ciphertext)
        draws.sign_random
      ≡ some (signature, path)
  pub derived :
      derive_keys s b sid m0 m1 m2 (inner_of b sid q ciphertext signature path) secret ≡ some keys
  pub confirmed :
      compute_confirmation_tag s.w domain_b_confirm keys.confirm_b keys.transcript_hash ≡ some tau_b
  pub written :
      m3
      ≡ write_fields 0
          (m3_fields b.config.path_mode sid (inner_of b sid q ciphertext signature path) tau_b)
          (replicate (m3_bytes_for_mode b.config.path_mode) 0)

responder_after-Answered :
    (s : Services) (b : Node) (draws : Draws) (m0 m1 sid m2 m3 hash_m2 ciphertext secret : List ℕ)
    (keys : Keys) (q : ℕ)
    → responder_before s b sid m2 s.now draws.kem_random ≡ some (hash_m2, ciphertext, secret)
    → responder_after s b m0 m1 sid m2 (hash_m2, ciphertext, secret) draws.sign_random q
      ≡ some (keys, m3)
    → Answered s b draws m0 m1 sid m2 m3 keys
unfolding responder_after
responder_after-Answered s b draws m0 m1 sid m2 m3 hash_m2 ciphertext secret keys q before e =
    let ((signature, path), hs, e1) =
      >>=-eq-some
        (sign_input s b q
          (build_m3_signed_input b.config sid hash_m2 b.config.credential_version q ciphertext)
          draws.sign_random)
        _ e in
    let inner = inner_of b sid q ciphertext signature path in
    let (found, hk, e2) = >>=-eq-some (derive_keys s b sid m0 m1 m2 inner secret) _ e1 in
    let (tau_b, ht, e3) =
      >>=-eq-some
        (compute_confirmation_tag s.w domain_b_confirm found.confirm_b found.transcript_hash) _
        e2 in
    let bytes =
      write_fields 0 (m3_fields b.config.path_mode sid inner tau_b)
        (replicate (m3_bytes_for_mode b.config.path_mode) 0) in
    let same_keys : found ≡ keys = cc in
    let same_m3 : bytes ≡ m3 = cc in
    subst (λ k. Answered s b draws m0 m1 sid m2 m3 k) same_keys
      record {
        hash_m2 = hash_m2;
        ciphertext = ciphertext;
        secret = secret;
        q = q;
        signature = signature;
        path = path;
        tau_b = tau_b;
        before = before;
        signed = hs;
        derived = hk;
        confirmed = ht;
        written = sym same_m3;
      }

pub responder_m3-Answered :
    (s : Services) (b : Node) (draws : Draws) (nvs next : Nvs) (m0 m1 sid m2 m3 : List ℕ)
    (keys : Keys)
    → responder_m3 s b draws nvs m0 m1 sid m2 ≡ (some (keys, m3), next)
    → Answered s b draws m0 m1 sid m2 m3 keys
unfolding responder_m3
responder_m3-Answered s b draws nvs next m0 m1 sid m2 m3 keys e =
    let ((hash_m2, ciphertext, secret), q, before, reserved, after) =
      with_index-some b.config draws.flash nvs next
        (responder_before s b sid m2 s.now draws.kem_random) _ e in
    responder_after-Answered s b draws m0 m1 sid m2 m3 hash_m2 ciphertext secret keys q before after

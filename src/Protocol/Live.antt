-- ===== src/Protocol/Live.antt =====
-- ProposedUavProtocol.cpp: the calls of a session succeed where wolfSSL reports no error.
use post_quantum_uav_uav.Prelude.{
  ℕ, ◌≤◌, ◌<◌, ◌≡◌, refl, ap, Bool, true, some, Option, List, [], ◌∷◌, ltb-false, Bool-cases, inl,
  inr, length, take, slice, arith,
}
use post_quantum_uav_uav.Prelude.Int.{ℤ, is_zero}
use post_quantum_uav_uav.Codec.{put_u16}
use post_quantum_uav_uav.Crypto.{WolfCrypt, IsDocumented, succeeded}
use post_quantum_uav_uav.Crypto.Sha.{IsReliable, IsReliableHmac, finish-reliable}
use post_quantum_uav_uav.Crypto.Total.{sha256_total, hmac_sha256-Succeeds, hkdf_sha256-Succeeds}
use post_quantum_uav_uav.Lms.SignVerify.{built_tree}
use post_quantum_uav_uav.Lms.Total.{sign_total}
use post_quantum_uav_uav.Lms.Tree.{Lms, extract_path}
use post_quantum_uav_uav.Lms.Sizes.{extract_path_total}
use post_quantum_uav_uav.Protocol.Config.{
  NodeConfig, PathDeliveryMode, signer_carried, repository_assisted, m2_bytes_for_mode,
  m3_inner_bytes_for_mode,
}
use post_quantum_uav_uav.Protocol.Counter.{
  Nvs, PutAnswer, FlashAnswer, stored, failed, reserve_q, is_unused, get_next_q,
}
use post_quantum_uav_uav.Protocol.Transcript.{
  compute_sid0, sid0_input, timed_transcript_hash, update_fields, update_if, derive_session_keys,
  compute_confirmation_tag, tagged, domain_transcript,
}
use post_quantum_uav_uav.Protocol.Peer.{generate_key, answer_key}
use post_quantum_uav_uav.Protocol.Session.{Services, Node, sign_input, own_path}
use post_quantum_uav_uav.Protocol.Respond.{Keys, derive_keys}
use post_quantum_uav_uav.Protocol.Trust.{IsProvisioned}

module _ (w : WolfCrypt) (documented : IsDocumented w) (reliable : IsReliable w)
    (hmac_reliable : IsReliableHmac w) where
  pub compute_sid0_total : (m0 m1 : List ℕ) → (sid : List ℕ) × (compute_sid0 w m0 m1 ≡ some sid)
  unfolding compute_sid0
  compute_sid0_total m0 m1 =
      let (d, e) = sha256_total w reliable (sid0_input m0 m1) 194 (omega arith) in (d, rw e refl)

  pub compute_confirmation_tag_total :
      (domain : ℕ) (key hash : List ℕ)
      → (tau : List ℕ) × (compute_confirmation_tag w domain key hash ≡ some tau)
  unfolding compute_confirmation_tag
  compute_confirmation_tag_total domain key hash =
      let (d, e) =
        hmac_sha256-Succeeds w hmac_reliable key (tagged domain hash) 32 36 (omega arith)
          (omega arith) in
      (d, rw e refl)

  derive_session_keys_total :
      (secret hash : List ℕ)
      → (keys : List ℕ × List ℕ × List ℕ) × (derive_session_keys w secret hash ≡ some keys)
  unfolding derive_session_keys
  derive_session_keys_total secret hash =
      let (d, e, long) =
        hkdf_sha256-Succeeds w hmac_reliable documented secret hash (tagged 0x35 hash) 32 32 36 96
          (omega arith) (omega arith) (omega arith) (omega arith) (omega arith) (omega arith) in
      ((slice 0 32 d, slice 32 32 d, slice 64 32 d), rw e refl)

  update_if-fine :
      (u : ℤ × w.Sha256) (bytes : List ℕ)
      → is_zero u.0 ≡ true
      → is_zero (update_if w u bytes).0 ≡ true
  update_if-fine (ret, sha) bytes h = rw h (reliable.sha256_update sha bytes)

  -- Each field has a length of 16 bits.
  abbrev Fit : List (List ℕ × ℕ) → Type 0
  Fit [] = Unit {0}
  Fit ((bytes, n) ∷ fields) = (n ≤ 65535) × Fit fields

  update_fields-fine :
      (fields : List (List ℕ × ℕ)) (u : ℤ × w.Sha256)
      → Fit fields
      → is_zero u.0 ≡ true
      → is_zero (update_fields w fields u).0 ≡ true
  unfolding update_fields
  update_fields-fine [] u fit h = h
  update_fields-fine ((bytes, n) ∷ fields) (ret, sha) (here, fit) h =
      rw (h, ltb-false 65535 n here)
        (update_fields-fine fields (update_if w (w.sha256_update sha (put_u16 n)) (take n bytes))
          fit (update_if-fine _ _ (reliable.sha256_update sha (put_u16 n))))

  pub timed_transcript_hash_total :
      (sid m0 m1 m2 : List ℕ) (n : ℕ) (inner : List ℕ) (m : ℕ)
      → n ≤ 65535
      → m ≤ 65535
      → (d : List ℕ) × (timed_transcript_hash w sid m0 m1 m2 n inner m ≡ some d)
  unfolding timed_transcript_hash
  timed_transcript_hash_total sid m0 m1 m2 n inner m hn hm =
      let first = update_if w w.init_sha256 (1 ∷ domain_transcript ∷ []) in
      let second = update_if w first (take 32 sid) in
      let last = update_fields w ((m0, 86) ∷ (m1, 102) ∷ (m2, n) ∷ (inner, m) ∷ []) second in
      let fine : is_zero last.0 ≡ true =
        update_fields-fine ((m0, 86) ∷ (m1, 102) ∷ (m2, n) ∷ (inner, m) ∷ []) second (omega arith) (
          update_if-fine first (take 32 sid)
            (update_if-fine w.init_sha256 (1 ∷ domain_transcript ∷ []) reliable.sha256_init)) in
      (
        (w.sha256_final last.1).1,
        ap succeeded (finish-reliable w.sha256_final last reliable.sha256_final fine),
      )

  short_m2 : (mode : PathDeliveryMode) → m2_bytes_for_mode mode ≤ 65535
  short_m2 signer_carried = omega arith
  short_m2 repository_assisted = omega arith

  short_inner : (mode : PathDeliveryMode) → m3_inner_bytes_for_mode mode ≤ 65535
  short_inner signer_carried = omega arith
  short_inner repository_assisted = omega arith

-- Nothing that a session calls reports an error.
pub record IsAble (s : Services) : Type 0 where
  pub documented : IsDocumented s.w
  pub reliable : IsReliable s.w
  pub hmac_reliable : IsReliableHmac s.w
  pub generates :
      (random : List ℕ) → (pair : s.kem.Key × List ℕ) × (generate_key s.kem random ≡ some pair)
  pub answers :
      (public_key random : List ℕ)
      → length public_key ≡ 800
      → (answer : List ℕ × List ℕ) × (answer_key s.kem public_key random ≡ some answer)

module _ (s : Services) (able : IsAble s) (node : Node) where
  pub derive_keys_total :
      (sid m0 m1 m2 inner secret : List ℕ)
      → (keys : Keys) × (derive_keys s node sid m0 m1 m2 inner secret ≡ some keys)
  unfolding derive_keys
  derive_keys_total sid m0 m1 m2 inner secret =
      let mode = node.config.path_mode in
      let (hash, eh) =
        timed_transcript_hash_total s.w able.documented able.reliable able.hmac_reliable sid m0 m1
          m2 (m2_bytes_for_mode mode) inner (m3_inner_bytes_for_mode mode)
          (short_m2 s.w able.documented able.reliable able.hmac_reliable mode)
          (short_inner s.w able.documented able.reliable able.hmac_reliable mode) in
      let (keys, ek) =
        derive_session_keys_total s.w able.documented able.reliable able.hmac_reliable secret
          hash in
      (
        record {
          transcript_hash = hash;
          session_key = keys.0;
          confirm_a = keys.1;
          confirm_b = keys.2;
        },
        rw (eh, ek) refl,
      )

  own_path_total :
      (q : ℕ)
      → ((path : List ℕ) × (extract_path node.lms q ≡ some path))
      → (mode : PathDeliveryMode) → node.config.path_mode ≡ mode
      → (path : List ℕ) × (own_path node q ≡ some path)
  own_path_total q (path, e) signer_carried hm = (path, rw hm e)
  own_path_total q (path, e) repository_assisted hm = ([], rw hm refl)

  -- A node signs with any of its keys.
  pub sign_input_total :
      (provisioned : IsProvisioned s node) (q : ℕ) (input random : List ℕ)
      → length provisioned.identifier ≡ 16
      → length provisioned.seed ≡ 32
      → q < 1024
      → length input ≤ 970
      → length random ≡ 32
      → (signed : List ℕ × List ℕ) × (sign_input s node q input random ≡ some signed)
  unfolding sign_input
  sign_input_total provisioned q input random hid hseed hq hi hr =
      let (done, shape, built) =
        built_tree s.w provisioned.allocated provisioned.old provisioned.start node.lms
          provisioned.identifier provisioned.seed provisioned.set_up provisioned.finished in
      let (signature, es) =
        sign_total s.w able.documented able.reliable provisioned.identifier provisioned.seed hid
          hseed node.lms q input random (ap (λ (l : Lms). l.identifier) shape) hq hi hr in
      let (path, ep) =
        own_path_total q
          (extract_path_total s.w provisioned.allocated provisioned.old provisioned.start node.lms
            provisioned.identifier provisioned.seed q provisioned.set_up provisioned.finished hq)
          node.config.path_mode refl in
      ((signature, path), rw (provisioned.runtime, es, ep) refl)

reserve_q_index-lt :
    (config : NodeConfig) (reads : Bool) (put : PutAnswer) (nvs next : Nvs) (q : ℕ)
    → reserve_q config (record { reads = reads; put = put }) nvs ≡ (some q, next)
    → q < 1024
unfolding reserve_q
reserve_q_index-lt config reads stored nvs next q h =
    elim (Bool-cases (is_unused config (get_next_q config reads nvs))) [
      | inl free ↦
          (let same : get_next_q config reads nvs ≡ q =
              cc (ap (λ (r : Option ℕ × Nvs). r.0) (rw free at h)) in
            rw (← same) (small config (get_next_q config reads nvs) free))
      | inr used ↦ absurd (cc (ap (λ (r : Option ℕ × Nvs). r.0) (rw used at h)))
    ]
  where
    small : (c : NodeConfig) (n : ℕ) → is_unused c n ≡ true → n < 1024
    small c n h = ground arith
reserve_q_index-lt config reads (failed landed) nvs next q h =
    elim (Bool-cases (is_unused config (get_next_q config reads nvs))) [
      | inl free ↦ absurd (cc (ap (λ (r : Option ℕ × Nvs). r.0) (rw free at h)))
      | inr used ↦ absurd (cc (ap (λ (r : Option ℕ × Nvs). r.0) (rw used at h)))
    ]

-- An index that is handed out is one of a leaf.
pub reserve_q-lt :
    (config : NodeConfig) (flash : FlashAnswer) (nvs next : Nvs) (q : ℕ)
    → reserve_q config flash nvs ≡ (some q, next)
    → q < 1024
reserve_q-lt config flash nvs next q h =
    reserve_q_index-lt config flash.reads flash.put nvs next q h

-- ===== src/Protocol/Start.antt =====
-- ProposedUavProtocol.cpp, `begin`: a start that succeeds.
use post_quantum_uav_uav.Prelude.{ℕ, ◌≡◌, refl, ap, true, some, List, length, arith}
use post_quantum_uav_uav.Crypto.{WolfCrypt, IsDocumented, helper_data_digest}
use post_quantum_uav_uav.Crypto.Sha.{IsReliable, IsReliableHmac, IsDigest, hash-IsDigest}
use post_quantum_uav_uav.Crypto.Total.{sha256_total, derive_lms_seed-Succeeds}
use post_quantum_uav_uav.Lms.Tree.{Lms, fresh, initialize, build_tree, root, node_at, hash_internal}
use post_quantum_uav_uav.Lms.SignVerify.{built_tree}
use post_quantum_uav_uav.Lms.Total.{build_tree_total}
use post_quantum_uav_uav.Protocol.Config.{NodeConfig}
use post_quantum_uav_uav.Protocol.Begin.{Surroundings, new_state, prepare_lms}

-- The tree that a start builds.
pub record Grown (w : WolfCrypt) (config : NodeConfig) : Type 0 where
  pub seed : List ℕ
  pub start : Lms
  pub lms : Lms
  pub set_up : initialize true fresh (some config.lms_identifier) (some seed) ≡ (true, start)
  pub finished : build_tree w start ≡ (true, lms)
  pub identifier : lms.identifier ≡ config.lms_identifier
  pub node : List ℕ
  pub at_root : root lms ≡ some node
  pub digest : IsDigest node

module _ (w : WolfCrypt) (documented : IsDocumented w) (reliable : IsReliable w)
    (config : NodeConfig) (identifier_size : length config.lms_identifier ≡ 16) where
  abbrev set_up_from : List ℕ → Lms
  set_up_from seed = (initialize true fresh (some config.lms_identifier) (some seed)).1

  set_up_lem :
      (seed : List ℕ)
      → initialize true fresh (some config.lms_identifier) (some seed) ≡ (true, set_up_from seed)
  unfolding initialize
  set_up_lem seed = refl

  grown : (seed : List ℕ) → length seed ≡ 32 → Grown w config
  unfolding root hash_internal
  grown seed seed_size =
      let start = set_up_from seed in
      let lms = (build_tree w start).1 in
      let fine =
        build_tree_total w documented reliable config.lms_identifier seed identifier_size seed_size
          true fresh start (set_up_lem seed) in
      let finished : build_tree w start ≡ (true, lms) = λ i. (fine i, lms) in
      let (tree, same, is_built) =
        built_tree w true fresh start lms config.lms_identifier seed (set_up_lem seed) finished in
      record {
        seed = seed;
        start = start;
        lms = lms;
        set_up = set_up_lem seed;
        finished = finished;
        identifier = ap (λ (l : Lms). l.identifier) same;
        node = node_at tree 1;
        at_root = ap root same;
        digest = hash-IsDigest w documented _ _ (is_built.inner 1 (omega arith) (omega arith));
      }

  pub prepare_lms_total :
      IsReliableHmac w
      → (e : Surroundings) (puf_root : List ℕ) → e.puf ≡ some puf_root
      → e.allocated ≡ true
      → (g : Grown w config) × (prepare_lms w e (new_state config) ≡ some (g.seed, g.lms))
  unfolding prepare_lms helper_data_digest grown
  prepare_lms_total hmac_reliable e puf_root reconstructs allocated =
      let (digest, digest_is) =
        sha256_total w reliable config.hardcoded_helper_data 32 (omega arith) in
      let (seed, seed_is, seed_size) =
        derive_lms_seed-Succeeds w hmac_reliable documented puf_root config.device_id
          config.lms_identifier config.credential_version in
      let g = grown seed seed_size in
      (g, rw (digest_is, reconstructs, seed_is, allocated, set_up_lem seed, g.finished) refl)

-- ===== src/Protocol/SetUp.antt =====
-- ProposedUavProtocol.cpp, `prepareLmsAndLedger`: what holds of a node that it has set up.
use post_quantum_uav_uav.Prelude.{
  some-injective, ℕ, ◌≡◌, refl, sym, ap, subst, ◌∙◌, Bool, true, false, some, List, All, length,
  >>=-eq-some, guard-eq-some, All-replicate, length-replicate, arith,
}
use post_quantum_uav_uav.Codec.{IsByte}
use post_quantum_uav_uav.Crypto.{IsDocumented, succeeded, derive_lms_seed, helper_data_digest}
use post_quantum_uav_uav.Lms.Tree.{Lms, initialize, build_tree}
use post_quantum_uav_uav.Transport.Fragment.{datagram}
use post_quantum_uav_uav.Protocol.Config.{
  NodeConfig, suite_id_for_mode, PathDeliveryMode, signer_carried, repository_assisted,
}
use post_quantum_uav_uav.Protocol.Greet.{IsNode}
use post_quantum_uav_uav.Protocol.Peer.{
  PeerPublicRecord, credential_status_active, validate_peer_record, timed_runtime_seed,
}
use post_quantum_uav_uav.Protocol.Session.{Services, Node}
use post_quantum_uav_uav.Protocol.Trust.{IsProvisioned}
use post_quantum_uav_uav.Protocol.Begin.{
  State, Surroundings, new_state, done, prepare_lms, prepare_lms_and_ledger, enroll_paths,
}
use post_quantum_uav_uav.Ledger.Wire.{op_root_record}
use post_quantum_uav_uav.Ledger.Client.{Client, Attempt, new_client}
use post_quantum_uav_uav.Ledger.Client as GcsLedgerClient
use post_quantum_uav_uav.Ledger.Enroll.{enroll_own_root}
use post_quantum_uav_uav.Ledger.Fetch.{fetch_peer_root, record_in}
use post_quantum_uav_uav.Ledger.Heard.{IsClient, Keeps, Keeps-refl, Keeps-trans, HoldsBytes, Came}
use post_quantum_uav_uav.Ledger.Kept.{enroll_own_root-Keeps, enroll_own_paths-Keeps}
use post_quantum_uav_uav.Ledger.Origin.{IsRecord}
use post_quantum_uav_uav.Ledger.RootOrigin.{fetch_peer_root-IsRecord}

pub done-eq-some {ℓ} : {A : Type ℓ} (r : Bool × A) {a : A} → done r ≡ some a → r ≡ (true, a)
done-eq-some (true, b) {a} h = let same : b ≡ a = cc (h) in λ i. (true, same i)
done-eq-some (false, b) h = absurd (cc (h))

-- The part of a node that its sessions read.
abbrev pub node_of : State → Node
node_of state = record { config = state.config; lms = state.lms; peer_record = state.peer_record }

-- Every datagram that comes during the start is made of bytes.
pub record BringsBytes (e : Surroundings) : Type 0 where
  pub root : (j : ℕ) → All HoldsBytes (e.root_attempts j).arrivals
  pub paths : (i j : ℕ) → All HoldsBytes (e.path_attempts i j).arrivals
  pub peer : (i j : ℕ) → All HoldsBytes (e.peer_attempts i j).arrivals

-- A node that is set up: the tree from the seed of its PUF, and a peer record that its sessions accept
-- and that came from the ledger's address in a record with a valid tag for the configured peer and
-- version.
pub record IsSetUp (s : Services) (e : Surroundings) (config : NodeConfig) (state : State)
    : Type 0 where
  pub config_kept : state.config ≡ config
  pub provisioned : IsProvisioned s (node_of state)
  pub valid :
      validate_peer_record config state.peer_record e.now config.peer_credential_version ≡ true
  pub wait_round : ℕ
  pub attempt : ℕ
  pub bytes : List ℕ
  pub came :
      Came
        (datagram bytes config.gcs_ip config.gcs_port)
        (e.peer_attempts wait_round attempt).arrivals
  pub is_record :
      IsRecord s.w 140 op_root_record config.peer_id config.peer_credential_version bytes
  pub read : record_in bytes ≡ state.peer_record

module _ (s : Services) (documented : IsDocumented s.w) (e : Surroundings)
    (same_puf : s.puf ≡ e.puf) (config : NodeConfig) (named : IsNode config)
    (brings : BringsBytes e) where
  -- The tree is built from the seed that the sessions derive again.
  prepare_lms-IsProvisioned :
      (seed : List ℕ) (lms : Lms) (peer : PeerPublicRecord)
      → prepare_lms s.w e (new_state config) ≡ some (seed, lms)
      → IsProvisioned s (record { config = config; lms = lms; peer_record = peer })
  unfolding prepare_lms timed_runtime_seed
  prepare_lms-IsProvisioned seed lms peer h =
      let (digest, digest_is, h1) =
        >>=-eq-some (succeeded (helper_data_digest s.w (some config.hardcoded_helper_data))) _ h in
      let (puf_root, puf_is, h2) = >>=-eq-some e.puf _ h1 in
      let (derived, derived_is, h3) =
        >>=-eq-some
          (succeeded (
            derive_lms_seed s.w (some puf_root) (some config.device_id) config.credential_version
              (some config.lms_identifier)))
          _ h2 in
      let (start, start_is, h4) =
        >>=-eq-some
          (done (
            initialize e.allocated (new_state config).lms (some config.lms_identifier)
              (some derived)))
          _ h3 in
      let (built, built_is, h5) = >>=-eq-some (done (build_tree s.w start)) _ h4 in
      let same_lms : built ≡ lms = cc (h5) in
      record {
        allocated = e.allocated;
        old = (new_state config).lms;
        start = start;
        identifier = config.lms_identifier;
        seed = derived;
        set_up = done-eq-some _ start_is;
        finished = done-eq-some _ built_is ∙ (λ k. (true, same_lms k));
        runtime = rw (same_puf, puf_is) derived_is;
      }

  enroll_paths-Keeps :
      (mode : PathDeliveryMode) (lms : Lms) (gcs : Client)
      → IsClient gcs
      → Keeps gcs (enroll_paths s.w e mode config lms gcs).1
  enroll_paths-Keeps repository_assisted lms gcs sound =
      enroll_own_paths-Keeps s.w lms config.credential_version config.first_q
        config.number_of_sessions e.path_attempts gcs sound brings.paths
  enroll_paths-Keeps signer_carried lms gcs sound = Keeps-refl gcs sound

  opened-IsClient :
      (gcs : Client)
      → GcsLedgerClient.begin e.gcs_opens new_client config.gcs_ip config.gcs_port
          config.gcs_local_port config.device_id config.peer_id
        ≡ (true, gcs)
      → IsClient gcs
        × (gcs.gcs_ip ≡ config.gcs_ip)
        × (gcs.gcs_port ≡ config.gcs_port)
        × (gcs.peer_id ≡ config.peer_id)
  unfolding GcsLedgerClient.begin
  opened-IsClient gcs h =
      let same = ap (λ (r : Bool × Client). r.1) (sym h) in
      (
        record {
          size = ap (λ (c : Client). length c.buffer) same ∙ length-replicate {A = ℕ} 400 0;
          bytes =
              subst (λ (c : Client). All IsByte c.buffer) (sym same)
                (All-replicate IsByte 400 0 (omega arith));
        },
        ap (λ (c : Client). c.gcs_ip) same,
        ap (λ (c : Client). c.gcs_port) same,
        ap (λ (c : Client). c.peer_id) same,
      )

  -- The ledger's client after the enrolments still has the configured addresses and peer.
  enrolled-Keeps :
      (lms : Lms) (opened enrolled gcs : Client)
      → GcsLedgerClient.begin e.gcs_opens new_client config.gcs_ip config.gcs_port
          config.gcs_local_port config.device_id config.peer_id
        ≡ (true, opened)
      → enroll_own_root s.w lms config.credential_version
          (suite_id_for_mode config.path_mode)
          credential_status_active
          config.credential_expiry_unix
          e.root_attempts
          opened
        ≡ (true, enrolled)
      → enroll_paths s.w e config.path_mode config lms enrolled ≡ (true, gcs)
      → IsClient gcs
        × (gcs.gcs_ip ≡ config.gcs_ip)
        × (gcs.gcs_port ≡ config.gcs_port)
        × (gcs.peer_id ≡ config.peer_id)
  enrolled-Keeps lms opened enrolled gcs begun rooted pathed =
      let (sound, ip, port, peer) = opened-IsClient opened begun in
      let first =
        subst (λ (r : Bool × Client). Keeps opened r.1) rooted
          (enroll_own_root-Keeps s.w lms config.credential_version
            (suite_id_for_mode config.path_mode) credential_status_active
            config.credential_expiry_unix e.root_attempts opened sound brings.root) in
      let second =
        subst (λ (r : Bool × Client). Keeps enrolled r.1) pathed
          (enroll_paths-Keeps config.path_mode lms enrolled first.sound) in
      let keeps = Keeps-trans opened enrolled gcs first second in
      (keeps.sound, keeps.gcs_ip ∙ ip, keeps.gcs_port ∙ port, keeps.peer_id ∙ peer)

  pub prepare_lms_and_ledger-IsSetUp :
      (state : State)
      → prepare_lms_and_ledger s.w e (new_state config) ≡ some state
      → IsSetUp s e config state
  unfolding prepare_lms_and_ledger
  prepare_lms_and_ledger-IsSetUp state h =
      let (own, own_is, h1) = >>=-eq-some (prepare_lms s.w e (new_state config)) _ h in
      let (connects, h2) = guard-eq-some e.connects _ h1 in
      let (opens, h3) = guard-eq-some e.transport_opens _ h2 in
      let (opened, opened_is, h4) =
        >>=-eq-some
          (done (
            GcsLedgerClient.begin e.gcs_opens new_client config.gcs_ip config.gcs_port
              config.gcs_local_port config.device_id config.peer_id))
          _ h3 in
      let answer =
        enroll_own_root s.w own.1 config.credential_version (suite_id_for_mode config.path_mode)
          credential_status_active config.credential_expiry_unix e.root_attempts opened in
      let (enrolled, enrolled_is, h5) = >>=-eq-some (done answer) _ h4 in
      let paths = enroll_paths s.w e config.path_mode config own.1 enrolled in
      let (gcs, gcs_is, h6) = >>=-eq-some (done paths) _ h5 in
      let (sound, ip, port, peer) =
        enrolled-Keeps own.1 opened enrolled gcs (done-eq-some _ opened_is)
          (done-eq-some answer enrolled_is) (done-eq-some paths gcs_is) in
      let fetched = fetch_peer_root s.w config.peer_credential_version e.peer_attempts gcs in
      let (peer_record, found, h7) = >>=-eq-some fetched.0 _ h6 in
      let (valid, h8) =
        guard-eq-some (validate_peer_record config peer_record e.now peer_record.version) _ h7 in
      let source =
        fetch_peer_root-IsRecord s.w documented config.peer_credential_version e.peer_attempts gcs
          peer_record sound (ap length peer ∙ named.peer_size)
          (subst (All IsByte) (sym peer) named.peer_bytes) brings.peer found in
      let version : peer_record.version ≡ config.peer_credential_version =
        ap (λ (r : PeerPublicRecord). r.version) (sym source.read) ∙ source.is_record.version in
      subst (IsSetUp s e config) (some-injective h8) (record {
        config_kept = refl;
        provisioned = prepare_lms-IsProvisioned own.0 own.1 peer_record own_is;
        valid = subst (λ v. validate_peer_record config peer_record e.now v ≡ true) version valid;
        wait_round = source.wait_round;
        attempt = source.attempt;
        bytes = source.bytes;
        came =
            subst (λ c. Came c (e.peer_attempts source.wait_round source.attempt).arrivals)
              (λ k. datagram source.bytes (ip k) (port k)) source.came;
        is_record =
            subst
              (λ i. IsRecord s.w 140 op_root_record i config.peer_credential_version source.bytes)
              peer source.is_record;
        read = source.read;
      })

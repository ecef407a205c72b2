-- ===== src/Protocol/Begin.antt =====
-- ProposedUavProtocol.cpp: the class's state, `prepareLmsAndLedger`, `begin`, and what `loop` does.
-- A start that fails is `none`: `m_ready` stays false, and `loop` then only waits.
use post_quantum_uav_uav.Prelude.{
  ℕ, ◌+◌, ◌%◌, ◌^◌, Bool, true, false, not, ◌||◌, Option, none, some, List, ltb, ◌==◌, replicate,
  ◌>>=◌, ◌>>◌, guard, if◌then◌else◌,
}
use post_quantum_uav_uav.Prelude.Int.{ℤ, is_zero}
use post_quantum_uav_uav.Crypto.{
  WolfCrypt, succeeded, helper_data_digest, derive_lms_seed, secure_zero,
}
use post_quantum_uav_uav.Lms.Tree.{Lms, fresh, initialize, build_tree, lms_leaves}
use post_quantum_uav_uav.Protocol.Config.{
  NodeConfig, PathDeliveryMode, signer_carried, repository_assisted, initiator, responder,
  suite_id_for_mode,
}
use post_quantum_uav_uav.Protocol.Counter.{Nvs, FlashAnswer, initialize_persistent_counter}
use post_quantum_uav_uav.Protocol.Peer.{
  PeerPublicRecord, credential_status_active, validate_peer_record,
}
use post_quantum_uav_uav.Ledger.Client.{Client, Attempt, new_client}
use post_quantum_uav_uav.Ledger.Client as GcsLedgerClient
use post_quantum_uav_uav.Ledger.Enroll.{enroll_own_root, enroll_own_paths}
use post_quantum_uav_uav.Ledger.Fetch.{fetch_peer_root}

-- The class's fields but for the messages' buffers and wolfSSL's generator and key.
pub record State : Type 0 where
  pub config : NodeConfig
  pub lms : Lms
  pub peer_record : PeerPublicRecord
  pub gcs : Client
  pub boot_seed : List ℕ
  pub ready : Bool
  pub initiator_completed : Bool

-- `ProposedUavProtocol::ProposedUavProtocol`, and the defaults of `PeerPublicRecord`.
abbrev pub new_state : NodeConfig → State
new_state config = record {
  config = config;
  lms = fresh;
  peer_record = record {
    ready = false;
    version = 0;
    suite_id = 0;
    status = 0;
    expiry_unix = 0;
    identifier = replicate 16 0;
    root = replicate 32 0;
  };
  gcs = new_client;
  boot_seed = replicate 32 0;
  ready = false;
  initiator_completed = false;
}

-- What a start meets: the PUF, memory for the tree, Wi-Fi, the two sockets, the ledger's traffic for
-- the root, for each path and in each round of waiting for the peer's root, the clock, wolfSSL's
-- generator and the flash store.
pub record Surroundings : Type 0 where
  pub puf : Option (List ℕ)
  pub allocated : Bool
  pub connects : Bool
  pub transport_opens : Bool
  pub gcs_opens : Bool
  pub root_attempts : ℕ → Attempt
  pub path_attempts : ℕ → ℕ → Attempt
  pub peer_attempts : ℕ → ℕ → Attempt
  pub now : ℕ
  pub rng_ret : ℤ
  pub nvs_opens : Bool
  pub flash : FlashAnswer

-- What a call leaves, where it returns true.
abbrev pub done {ℓ} : {A : Type ℓ} → Bool × A → Option A
done (true, a) = some a
done (false, a) = none

-- `firstQ` to `firstQ + numberOfSessions - 1` are indices of the tree, and there is one.
abbrev pub is_session_range : NodeConfig → Bool
is_session_range config = not (
    (config.number_of_sessions == 0)
    || ltb lms_leaves ((config.first_q + config.number_of_sessions) % 2 ^ 32))

module _ (w : WolfCrypt) (e : Surroundings) where
  -- The own tree, built from the seed that is derived from the PUF's root.
  unfoldable pub prepare_lms : State → Option (List ℕ × Lms)
  prepare_lms s = do
    digest ← succeeded (helper_data_digest w (some s.config.hardcoded_helper_data))
    puf_root ← e.puf
    seed ← succeeded (
        derive_lms_seed w (some puf_root) (some s.config.device_id) s.config.credential_version
          (some s.config.lms_identifier))
    start ← done (initialize e.allocated s.lms (some s.config.lms_identifier) (some seed))
    built ← done (build_tree w start)
    some (seed, built)

  -- The enrolment of the paths, in the mode that needs it.
  abbrev pub enroll_paths : PathDeliveryMode → NodeConfig → Lms → Client → Bool × Client
  enroll_paths repository_assisted config lms gcs =
      enroll_own_paths w lms config.credential_version config.first_q config.number_of_sessions
        e.path_attempts gcs
  enroll_paths signer_carried config lms gcs = (true, gcs)

  unfoldable pub prepare_lms_and_ledger : State → Option State
  prepare_lms_and_ledger s = do
    let config = s.config
    own ← prepare_lms s
    guard e.connects
    guard e.transport_opens
    opened ← done (
        GcsLedgerClient.begin e.gcs_opens s.gcs config.gcs_ip config.gcs_port config.gcs_local_port
          config.device_id config.peer_id)
    enrolled ← done (
        enroll_own_root w own.1 config.credential_version (suite_id_for_mode config.path_mode)
          credential_status_active config.credential_expiry_unix e.root_attempts opened)
    gcs ← done (enroll_paths config.path_mode config own.1 enrolled)
    let fetched = fetch_peer_root w config.peer_credential_version e.peer_attempts gcs
    peer_record ← fetched.0
    guard (validate_peer_record config peer_record e.now peer_record.version)
    some (record s {
      lms = own.1;
      peer_record = peer_record;
      gcs = fetched.1;
      boot_seed = secure_zero 32 own.0;
    })

  unfoldable pub begin : Nvs → State → Option (State × Nvs)
  begin nvs s = do
    guard (is_session_range s.config)
    prepared ← prepare_lms_and_ledger s
    guard (is_zero e.rng_ret)
    next ← done (initialize_persistent_counter s.config e.nvs_opens e.flash nvs)
    some (record prepared { ready = true }, next)

-- What one call of `loop` does.
pub data Turn : Type 0 where
  wait run_initiator_experiments run_responder_once : Turn

unfoldable pub loop : State → Turn
loop s = if not s.ready then wait else elim s.config.role [
  | initiator ↦ if s.initiator_completed then wait else run_initiator_experiments
  | responder ↦ run_responder_once
]

-- ===== src/Protocol/Started.antt =====
-- ProposedUavProtocol.cpp, `begin`: a node that meets what it needs starts.
use post_quantum_uav_uav.Prelude.{
  >>=-some, ==-false, guard-true, ℕ, ◌+◌, ◌%◌, ◌^◌, ◌≤◌, ◌<◌, ◌≡◌, refl, sym, ap, subst, ◌∙◌, Bool,
  true, false, some, List, All, length, ltb, ltb-false, ◌==◌, arith, length-replicate,
  All-replicate,
}
use post_quantum_uav_uav.Prelude.Int.{is_zero}
use post_quantum_uav_uav.Codec.{IsByte}
use post_quantum_uav_uav.Crypto.{WolfCrypt, IsDocumented, uint32_max, secure_zero}
use post_quantum_uav_uav.Crypto.Sha.{IsReliable, IsReliableHmac}
use post_quantum_uav_uav.Lms.Tree.{fresh}
use post_quantum_uav_uav.Protocol.Config.{
  NodeConfig, PathDeliveryMode, signer_carried, repository_assisted, suite_id_for_mode,
}
use post_quantum_uav_uav.Protocol.Counter.{Nvs, initialize_persistent_counter}
use post_quantum_uav_uav.Protocol.Accept.{suite_id-fits}
use post_quantum_uav_uav.Protocol.Greet.{IsNode}
use post_quantum_uav_uav.Protocol.Peer.{credential_status_active, validate_peer_record}
use post_quantum_uav_uav.Protocol.Begin.{
  State, Surroundings, new_state, done, prepare_lms, prepare_lms_and_ledger, enroll_paths, begin,
  is_session_range,
}
use post_quantum_uav_uav.Protocol.SetUp.{BringsBytes}
use post_quantum_uav_uav.Protocol.Start.{Grown, prepare_lms_total}
use post_quantum_uav_uav.Ledger.Wire.{op_root_record}
use post_quantum_uav_uav.Ledger.Client.{Client, Attempt, new_client}
use post_quantum_uav_uav.Ledger.Client as GcsLedgerClient
use post_quantum_uav_uav.Ledger.Enroll.{enroll_own_root, ack_for}
use post_quantum_uav_uav.Ledger.Fetch.{fetch_peer_root, root_awaited}
use post_quantum_uav_uav.Ledger.Server.{RootRow}
use post_quantum_uav_uav.Ledger.Heard.{IsClient, Keeps, Keeps-trans}
use post_quantum_uav_uav.Ledger.Kept.{enroll_own_paths-Keeps}
use post_quantum_uav_uav.Ledger.Through.{IsReached}
use post_quantum_uav_uav.Ledger.Layout.{Agrees, packet}
use post_quantum_uav_uav.Ledger.Exchange.{IsIdentity}
use post_quantum_uav_uav.Ledger.Acknowledged.{ack}
use post_quantum_uav_uav.Ledger.OwnPaths.{enroll_own_paths-acknowledged}
use post_quantum_uav_uav.Ledger.RootReply.{root_fields, IsRow, record_of, fetch_peer_root-reply}
use post_quantum_uav_uav.Ledger.RootAck.{enroll_own_root-ack}

-- A configuration whose numbers fit their types, with some indices of the tree.
pub record IsConfigured (config : NodeConfig) : Type 0 where
  pub named : IsNode config
  pub identifier_size : length config.lms_identifier ≡ 16
  pub identifier_bytes : All IsByte config.lms_identifier
  pub version_fits : config.credential_version < 2 ^ 32
  pub peer_version_fits : config.peer_credential_version < 2 ^ 32
  pub expiry_fits : config.credential_expiry_unix < 2 ^ 64
  pub some_sessions : 0 < config.number_of_sessions
  pub in_tree : config.first_q + config.number_of_sessions ≤ 1024

-- What a start needs: its PUF, memory, Wi-Fi, sockets, generator and counter work, the ledger's
-- acknowledgements reach it, and so does a valid root record of the peer, in the first round.
pub record Meets (w : WolfCrypt) (tag : List ℕ → List ℕ) (e : Surroundings) (config : NodeConfig)
    (row : RootRow) (nvs next : Nvs) : Type 0 where
  pub puf_root : List ℕ
  pub reconstructs : e.puf ≡ some puf_root
  pub allocated : e.allocated ≡ true
  pub connects : e.connects ≡ true
  pub transport_opens : e.transport_opens ≡ true
  pub gcs_opens : e.gcs_opens ≡ true
  pub root_reached :
      IsReached w
        (ack_for config.credential_version uint32_max)
        config.gcs_ip
        config.gcs_port
        (ack tag config.device_id config.credential_version 0)
        e.root_attempts
  pub paths_reached :
      config.path_mode ≡ repository_assisted
      → (i : ℕ) → i < config.number_of_sessions
      → IsReached w
          (ack_for config.credential_version (config.first_q + i))
          config.gcs_ip
          config.gcs_port
          (ack tag config.device_id config.credential_version (config.first_q + i))
          (e.path_attempts i)
  pub peer_reached :
      IsReached w
        (root_awaited config.peer_credential_version)
        config.gcs_ip
        config.gcs_port
        (packet tag
          (root_fields op_root_record config.peer_id config.peer_credential_version row)
          0)
        (e.peer_attempts 0)
  pub valid :
      validate_peer_record config
        (record_of config.peer_credential_version row)
        e.now
        config.peer_credential_version
      ≡ true
  pub rng : is_zero e.rng_ret ≡ true
  pub counter : initialize_persistent_counter config e.nvs_opens e.flash nvs ≡ (true, next)

done-true {ℓ} : {A : Type ℓ} (r : Bool × A) → r.0 ≡ true → done r ≡ some r.1
done-true (true, a) h = refl
done-true (false, a) h = absurd (cc (h))

module _ (w : WolfCrypt) (documented : IsDocumented w) (reliable : IsReliable w)
    (hmac_reliable : IsReliableHmac w) (tag : List ℕ → List ℕ) (agrees : Agrees w tag)
    (e : Surroundings) (brings : BringsBytes e) (config : NodeConfig)
    (configured : IsConfigured config) (row : RootRow) (fits : IsRow row) (nvs next : Nvs)
    (meets : Meets w tag e config row nvs next) where
  device : IsIdentity config.device_id
  device = record { size = configured.named.device_size; bytes = configured.named.device_bytes }

  peer : IsIdentity config.peer_id
  peer = record { size = configured.named.peer_size; bytes = configured.named.peer_bytes }

  -- The ledger's client after its `begin`.
  abbrev opened : Client
  opened = record new_client {
    gcs_ip = config.gcs_ip;
    gcs_port = config.gcs_port;
    local_port = config.gcs_local_port;
    device_id = config.device_id;
    peer_id = config.peer_id;
  }

  opened_lem :
      GcsLedgerClient.begin e.gcs_opens new_client config.gcs_ip config.gcs_port
        config.gcs_local_port config.device_id config.peer_id
      ≡ (true, opened)
  unfolding GcsLedgerClient.begin
  opened_lem = λ k. (meets.gcs_opens k, opened)

  opened_sound : IsClient opened
  opened_sound = record {
    size = length-replicate {A = ℕ} 400 0;
    bytes = All-replicate IsByte 400 0 (omega arith);
  }

  abbrev own_row : Grown w config → RootRow
  own_row g = record {
    identifier = config.lms_identifier;
    root = g.node;
    suite_id = suite_id_for_mode config.path_mode;
    status = credential_status_active;
    expiry_unix = config.credential_expiry_unix;
  }

  own_row-IsRow : (g : Grown w config) → IsRow (own_row g)
  own_row-IsRow g = record {
    identifier_size = configured.identifier_size;
    identifier_bytes = configured.identifier_bytes;
    root_size = g.digest.0;
    root_bytes = g.digest.1;
    suite_fits = suite_id-fits config.path_mode;
    status_fits = omega arith;
    expiry_fits = configured.expiry_fits;
  }

  -- The enrolment of the own root.
  abbrev enrolled : Grown w config → Bool × Client
  enrolled g =
      enroll_own_root w g.lms config.credential_version (suite_id_for_mode config.path_mode)
        credential_status_active config.credential_expiry_unix e.root_attempts opened

  enrolled_lem : (g : Grown w config) → ((enrolled g).0 ≡ true) × Keeps opened (enrolled g).1
  enrolled_lem g =
      enroll_own_root-ack w documented tag agrees opened device config.credential_version
        configured.version_fits g.lms (own_row g) (own_row-IsRow g) g.identifier g.at_root
        e.root_attempts opened_sound meets.root_reached

  -- The enrolment of the paths, in the mode that needs it.
  paths_lem :
      (mode : PathDeliveryMode) (g : Grown w config) (c : Client)
      → Keeps opened c
      → (mode ≡ repository_assisted
          → (i : ℕ) → i < config.number_of_sessions
          → IsReached w
              (ack_for config.credential_version (config.first_q + i))
              config.gcs_ip
              config.gcs_port
              (ack tag config.device_id config.credential_version (config.first_q + i))
              (e.path_attempts i))
      → ((enroll_paths w e mode config g.lms c).0 ≡ true)
        × Keeps opened (enroll_paths w e mode config g.lms c).1
  paths_lem signer_carried g c keeps reached = (refl, keeps)
  paths_lem repository_assisted g c keeps reached = (
    enroll_own_paths-acknowledged w documented tag agrees config.device_id device
        config.credential_version configured.version_fits true fresh g.start g.lms
        config.lms_identifier g.seed g.set_up g.finished config.gcs_ip config.gcs_port
        config.first_q e.path_attempts c config.number_of_sessions keeps.sound keeps.device_id
        keeps.gcs_ip keeps.gcs_port configured.some_sessions configured.in_tree (reached refl),
    Keeps-trans opened c _ keeps (
        enroll_own_paths-Keeps w g.lms config.credential_version config.first_q
          config.number_of_sessions e.path_attempts c keeps.sound brings.paths),
  )

  -- The peer's root.
  fetched_lem :
      (c : Client)
      → Keeps opened c
      → (fetch_peer_root w config.peer_credential_version e.peer_attempts c).0
        ≡ some (record_of config.peer_credential_version row)
  fetched_lem c keeps =
      fetch_peer_root-reply w documented tag agrees c keeps.sound
        (subst IsIdentity (sym keeps.device_id) device) (subst IsIdentity (sym keeps.peer_id) peer)
        config.peer_credential_version configured.peer_version_fits row fits e.peer_attempts
        (subst
          (λ (a : ℕ × ℕ × List ℕ).
            IsReached w (root_awaited config.peer_credential_version) a.0 a.1
              (packet tag (root_fields op_root_record a.2 config.peer_credential_version row) 0)
              (e.peer_attempts 0))
          (λ k. (sym keeps.gcs_ip k, sym keeps.gcs_port k, sym keeps.peer_id k)) meets.peer_reached)

  range : is_session_range config ≡ true
  range =
      let some : (config.number_of_sessions == 0) ≡ false =
        ==-false config.number_of_sessions configured.some_sessions in
      let within : ltb 1024 ((config.first_q + config.number_of_sessions) % 2 ^ 32) ≡ false =
        ltb-false 1024 ((config.first_q + config.number_of_sessions) % 2 ^ 32)
          (omega (arith, configured.in_tree)) in
      rw (some, within) refl

  -- The class's state after a start with this tree.
  abbrev set_up_state : Grown w config → State
  set_up_state g =
      let paths = enroll_paths w e config.path_mode config g.lms (enrolled g).1 in
      record (new_state config) {
        lms = g.lms;
        peer_record = record_of config.peer_credential_version row;
        gcs = (fetch_peer_root w config.peer_credential_version e.peer_attempts paths.1).1;
        boot_seed = secure_zero 32 g.seed;
      }

  prepare_lms_and_ledger_total :
      (g : Grown w config)
      → prepare_lms w e (new_state config) ≡ some (g.seed, g.lms)
      → prepare_lms_and_ledger w e (new_state config) ≡ some (set_up_state g)
  unfolding prepare_lms_and_ledger
  prepare_lms_and_ledger_total g prepared =
      let (root_done, first) = enrolled_lem g in
      let (paths_done, keeps) =
        paths_lem config.path_mode g (enrolled g).1 first meets.paths_reached in
      let paths = enroll_paths w e config.path_mode config g.lms (enrolled g).1 in
      >>=-some _ prepared
      ∙ guard-true meets.connects
      ∙ guard-true meets.transport_opens
      ∙ >>=-some _ (ap done opened_lem)
      ∙ >>=-some _ (done-true (enrolled g) root_done)
      ∙ >>=-some _ (done-true paths paths_done)
      ∙ >>=-some _ (fetched_lem paths.1 keeps)
      ∙ guard-true meets.valid

  -- A node that meets what it needs starts: with a configuration that fits its types, wolfSSL without
  -- errors, the ledger's acknowledgements and a valid root record of the peer coming through,
  -- whatever noise comes before each, `begin` succeeds, and the node is ready with that record.
  pub begin_total :
      (state : State) × (begin w e nvs (new_state config) ≡ some (state, next))
      × (state.ready ≡ true)
      × (state.peer_record ≡ record_of config.peer_credential_version row)
  unfolding begin
  begin_total =
      let (g, prepared) =
        prepare_lms_total w documented reliable config configured.identifier_size hmac_reliable e
          meets.puf_root meets.reconstructs meets.allocated in
      (
        record (set_up_state g) { ready = true },
        guard-true range
            ∙ >>=-some _ (prepare_lms_and_ledger_total g prepared)
            ∙ guard-true meets.rng
            ∙ >>=-some _ (ap done meets.counter),
        refl,
        refl,
      )

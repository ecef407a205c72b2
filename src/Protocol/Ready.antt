-- ===== src/Protocol/Ready.antt =====
-- ProposedUavProtocol.cpp, `begin`: what holds of a node whose start succeeded.
use post_quantum_uav_uav.Prelude.{
  some-injective, ◌≡◌, refl, ap, subst, Bool, true, false, some, >>=-eq-some, guard-eq-some, not,
  if◌then◌else◌,
}
use post_quantum_uav_uav.Prelude.Int.{is_zero}
use post_quantum_uav_uav.Crypto.{IsDocumented}
use post_quantum_uav_uav.Protocol.Config.{NodeConfig}
use post_quantum_uav_uav.Protocol.Counter.{
  Nvs, FlashAnswer, put_uint, initialize_persistent_counter, get_next_q, is_unused,
}
use post_quantum_uav_uav.Protocol.Greet.{IsNode}
use post_quantum_uav_uav.Protocol.Session.{Services}
use post_quantum_uav_uav.Protocol.Begin.{
  State, Surroundings, new_state, done, prepare_lms_and_ledger, begin, is_session_range,
}
use post_quantum_uav_uav.Protocol.SetUp.{
  done-eq-some, BringsBytes, IsSetUp, prepare_lms_and_ledger-IsSetUp,
}

-- A node that is set up and ready, with an unused index of the configured range for its first session.
pub record IsReady (s : Services) (e : Surroundings) (config : NodeConfig) (state : State)
    (nvs : Nvs) : Type 0 where
  pub ready : state.ready ≡ true
  pub set_up : IsSetUp s e config state
  pub unused : is_unused config (get_next_q config true nvs) ≡ true

unless_closed-unused :
    (config : NodeConfig) (opened reads : Bool) (nvs stored_q next : Nvs)
    → (if◌then◌else◌ {A = Bool × Nvs}
        (not opened)
        (false, nvs)
        (is_unused config (get_next_q config reads stored_q), stored_q))
      ≡ (true, next)
    → is_unused config (get_next_q config reads next) ≡ true
unless_closed-unused config false reads nvs stored_q next h =
    absurd (cc (ap (λ (r : Bool × Nvs). r.0) h))
unless_closed-unused config true reads nvs stored_q next h =
    subst (λ k. is_unused config (get_next_q config reads k) ≡ true)
      (ap (λ (r : Bool × Nvs). r.1) h) (ap (λ (r : Bool × Nvs). r.0) h)

initialize_persistent_counter-unused :
    (config : NodeConfig) (opened : Bool) (flash : FlashAnswer) (nvs next : Nvs)
    → initialize_persistent_counter config opened flash nvs ≡ (true, next)
    → is_unused config (get_next_q config flash.reads next) ≡ true
unfolding initialize_persistent_counter
initialize_persistent_counter-unused config opened flash nvs next h =
    unless_closed-unused config opened flash.reads nvs
      (if config.reset_q_counter then (put_uint flash.put config.first_q nvs).1 else nvs) next h

module _ (s : Services) (documented : IsDocumented s.w) (e : Surroundings)
    (same_puf : s.puf ≡ e.puf) (config : NodeConfig) (named : IsNode config)
    (brings : BringsBytes e) where
  IsSetUp-ready :
      (state : State)
      → IsSetUp s e config state
      → IsSetUp s e config (record state { ready = true })
  IsSetUp-ready state h = record {
    config_kept = h.config_kept;
    provisioned = h.provisioned;
    valid = h.valid;
    wait_round = h.wait_round;
    attempt = h.attempt;
    bytes = h.bytes;
    came = h.came;
    is_record = h.is_record;
    read = h.read;
  }

  -- Where `begin` succeeds on a new node and could read flash, the node has the tree that its PUF's
  -- seed gives in each session, a record of the configured peer that is valid for its sessions and
  -- that the ledger's address sent with a valid tag, whatever else came, and an unused index of its
  -- range.
  pub begin-IsReady :
      (nvs next : Nvs) (state : State)
      → e.flash.reads ≡ true
      → begin s.w e nvs (new_state config) ≡ some (state, next)
      → IsReady s e config state next
  unfolding begin
  begin-IsReady nvs next state reads h =
      let (range, h1) = guard-eq-some (is_session_range config) _ h in
      let (prepared, prepared_is, h2) =
        >>=-eq-some (prepare_lms_and_ledger s.w e (new_state config)) _ h1 in
      let (rng, h3) = guard-eq-some (is_zero e.rng_ret) _ h2 in
      let (kept, kept_is, h4) =
        >>=-eq-some (done (initialize_persistent_counter config e.nvs_opens e.flash nvs)) _ h3 in
      let set_up =
        prepare_lms_and_ledger-IsSetUp s documented e same_puf config named brings prepared
          prepared_is in
      subst (λ (r : State × Nvs). IsReady s e config r.0 r.1) (some-injective h4)
        (record {
          ready = refl;
          set_up = IsSetUp-ready prepared set_up;
          unused =
              subst (λ k. is_unused config (get_next_q config k kept) ≡ true) reads
                (initialize_persistent_counter-unused config e.nvs_opens e.flash nvs kept
                  (done-eq-some _ kept_is));
        })

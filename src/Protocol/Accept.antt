-- ===== src/Protocol/Accept.antt =====
-- ProposedUavProtocol.cpp: `validateM0` and `validateM1` accept what the peer builds, and nothing else.
use post_quantum_uav_uav.Prelude.{
  ℕ, ◌+◌, ◌^◌, ◌<◌, ◌≡◌, ◌↔◌, refl, sym, ap, ◌∙◌, Bool, true, none, some, List, [], ◌++◌, All,
  length, if◌then◌else◌, slice, arith, Bool-cases, inl, inr, append-nil, subst,
}
use post_quantum_uav_uav.Codec.{IsByte}
use post_quantum_uav_uav.Protocol.Config.{
  NodeConfig, suite_id_for_mode, PathDeliveryMode, signer_carried, repository_assisted,
}
use post_quantum_uav_uav.Protocol.Hello.{
  build_m0, validate_m0, build_m1, validate_m1, msg_m0_req, msg_m1_chal,
}
use post_quantum_uav_uav.Protocol.Greet.{
  IsNode, greeting, build_m0-greeting, build_m1-greeting, matches, IsPlain, matches→greeting,
  greeting→matches, greeting-nonce_b,
}

-- `peer` is the node at the other end: the same identities the other way round, the same mode.
pub record Mirrors (config peer : NodeConfig) : Type 0 where
  pub sender : peer.device_id ≡ config.peer_id
  pub receiver : peer.peer_id ≡ config.device_id
  pub mode : peer.path_mode ≡ config.path_mode

pub suite_id-fits : (mode : PathDeliveryMode) → suite_id_for_mode mode < 2 ^ 32
suite_id-fits signer_carried = omega arith
suite_id-fits repository_assisted = omega arith

module _ (config peer : NodeConfig) (node : IsNode config) (mirrors : Mirrors config peer)
    (nonce_a : List ℕ) (ha : length nonce_a ≡ 16) (ba : All IsByte nonce_a) where
  peer-IsNode : IsNode peer
  peer-IsNode = record {
    device_size = ap length mirrors.sender ∙ node.peer_size;
    device_bytes = subst (All IsByte) (sym mirrors.sender) node.peer_bytes;
    peer_size = ap length mirrors.receiver ∙ node.device_size;
    peer_bytes = subst (All IsByte) (sym mirrors.receiver) node.device_bytes;
  }

  -- What the peer sends, in the words of this node.
  mirrored :
      (type : ℕ) (nonces : List ℕ)
      → greeting type peer.device_id peer.peer_id nonces (suite_id_for_mode peer.path_mode)
        ≡ greeting type config.peer_id config.device_id nonces (suite_id_for_mode config.path_mode)
  mirrored type nonces = λ k.
      greeting type (mirrors.sender k) (mirrors.receiver k) nonces
        (suite_id_for_mode (mirrors.mode k))

  plain :
      (type r : ℕ) (m : List ℕ)
      → length m ≡ 86 + r
      → All IsByte m
      → IsPlain type
          (suite_id_for_mode config.path_mode)
          r
          config.peer_id
          config.device_id
          nonce_a
          m
  plain type r m hm bm = record {
    size = hm;
    bytes = bm;
    from_size = node.peer_size;
    from_bytes = node.peer_bytes;
    to_size = node.device_size;
    to_bytes = node.device_bytes;
    nonce_size = ha;
    nonce_bytes = ba;
    suite_fits = suite_id-fits config.path_mode;
  }

-- Of the messages of M0's size, `validateM0` accepts with a nonce exactly the one that the peer builds
-- with that nonce: a peer with the same identities the other way round and the same path mode.
pub validate_m0_iff :
    (config peer : NodeConfig) (nonce_a m0 : List ℕ)
    → IsNode config
    → Mirrors config peer
    → length nonce_a ≡ 16
    → All IsByte nonce_a
    → length m0 ≡ 86
    → All IsByte m0
    → (validate_m0 config m0 nonce_a ≡ true) ↔ (m0 ≡ build_m0 peer nonce_a)
unfolding validate_m0
validate_m0_iff config peer nonce_a m0 node mirrors ha ba hm bm =
    let suite = suite_id_for_mode config.path_mode in
    let known = plain config peer node mirrors nonce_a ha ba msg_m0_req 0 m0 hm bm in
    let built =
      build_m0-greeting peer nonce_a (peer-IsNode config peer node mirrors nonce_a ha ba) ha
      ∙ mirrored config peer node mirrors nonce_a ha ba msg_m0_req nonce_a in
    let alone : greeting msg_m0_req config.peer_id config.device_id (nonce_a ++ []) suite
        ≡ greeting msg_m0_req config.peer_id config.device_id nonce_a suite =
      ap (λ n. greeting msg_m0_req config.peer_id config.device_id n suite) (append-nil nonce_a) in
    (
      λ h.
          matches→greeting msg_m0_req suite 0 config.peer_id config.device_id nonce_a m0 known h
          ∙ alone
          ∙ sym built,
      λ e.
          greeting→matches msg_m0_req suite 0 config.peer_id config.device_id nonce_a m0 [] known
            refl (e ∙ built ∙ sym alone),
    )

-- Of the messages of M1's size, `validateM1` accepts and gives out a nonce exactly where the message is
-- the one that the peer builds with the initiator's nonce and that nonce.
pub validate_m1_iff :
    (config peer : NodeConfig) (nonce_a nonce_b m1 : List ℕ)
    → IsNode config
    → Mirrors config peer
    → length nonce_a ≡ 16
    → All IsByte nonce_a
    → length nonce_b ≡ 16
    → length m1 ≡ 102
    → All IsByte m1
    → (validate_m1 config m1 nonce_a ≡ some nonce_b) ↔ (m1 ≡ build_m1 peer nonce_a nonce_b)
unfolding validate_m1
validate_m1_iff config peer nonce_a nonce_b m1 node mirrors ha ba hb hm bm = (
  λ h.
      let (accepted, nonce) = taken h in
      matches→greeting msg_m1_chal suite 16 config.peer_id config.device_id nonce_a m1 known
        accepted
      ∙ ap (λ n. greeting msg_m1_chal config.peer_id config.device_id (nonce_a ++ n) suite) nonce
      ∙ sym built,
  λ e.
      rw
        (greeting→matches msg_m1_chal suite 16 config.peer_id config.device_id nonce_a m1 nonce_b
          known hb (e ∙ built))
        (ap some (given (e ∙ built))),
)
  where
    suite : ℕ
    suite = suite_id_for_mode config.path_mode

    known : IsPlain msg_m1_chal suite 16 config.peer_id config.device_id nonce_a m1
    known = plain config peer node mirrors nonce_a ha ba msg_m1_chal 16 m1 hm bm

    tests : Bool
    tests = matches msg_m1_chal config.peer_id config.device_id nonce_a suite 98 m1

    built :
        build_m1 peer nonce_a nonce_b
        ≡ greeting msg_m1_chal config.peer_id config.device_id (nonce_a ++ nonce_b) suite
    built =
        build_m1-greeting peer nonce_a nonce_b (peer-IsNode config peer node mirrors nonce_a ha ba)
          ha hb
        ∙ mirrored config peer node mirrors nonce_a ha ba msg_m1_chal (nonce_a ++ nonce_b)

    taken :
        (if tests then some (slice 82 16 m1) else none) ≡ some nonce_b
        → (tests ≡ true) × (slice 82 16 m1 ≡ nonce_b)
    taken h = elim (Bool-cases tests) [
      | inl fine ↦ (fine, cc (rw fine at h))
      | inr refused ↦ cc (rw refused at h)
    ]

    given :
        m1 ≡ greeting msg_m1_chal config.peer_id config.device_id (nonce_a ++ nonce_b) suite
        → slice 82 16 m1 ≡ nonce_b
    given e =
        greeting-nonce_b msg_m1_chal suite 16 config.peer_id config.device_id nonce_a m1 nonce_b
          known hb e

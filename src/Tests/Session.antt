-- ===== src/Tests/Session.antt =====
-- A whole session of two nodes, with the toy wolfSSL and a toy ML-KEM.
use post_quantum_uav_uav.Prelude.{
  ℕ, ◌≡◌, refl, sym, ap, subst, ◌∙◌, true, some, none, Option, List, ◌++◌, All, All-append,
  length-append, All-replicate, length, length-replicate, replicate, arith,
}
use post_quantum_uav_uav.Prelude.Int.{pos}
use post_quantum_uav_uav.Codec.{IsByte, put_u32}
use post_quantum_uav_uav.Codec.Integers.{length-put_u32, put_u32-IsByte}
use post_quantum_uav_uav.Crypto.{ok, derive_lms_seed}
use post_quantum_uav_uav.Crypto.Total.{derive_lms_seed-Succeeds}
use post_quantum_uav_uav.Lms.Tree.{Lms, fresh, node_at, initialize, build_tree, root, extract_path}
use post_quantum_uav_uav.Lms.SignVerify.{built_tree}
use post_quantum_uav_uav.Lms.Total.{build_tree_total}
use post_quantum_uav_uav.Protocol.Config.{NodeConfig, repository_assisted, suite_id_for_mode}
use post_quantum_uav_uav.Protocol.Counter.{works, reserve_q}
use post_quantum_uav_uav.Protocol.Hello.{build_m0, build_m1, validate_m1, msg_m1_chal}
use post_quantum_uav_uav.Protocol.Greet.{greeting, build_m1-greeting}
use post_quantum_uav_uav.Protocol.Accept.{validate_m1_iff}
use post_quantum_uav_uav.Protocol.Peer.{
  PeerPublicRecord, MlKem, generate_key, answer_key, open_ciphertext, timed_runtime_seed,
  validate_peer_record,
}
use post_quantum_uav_uav.Protocol.Session.{Services, Node, Draws, AwaitingM3, initiator_m2}
use post_quantum_uav_uav.Protocol.Respond.{Keys, responder_m3, initiator_m4, responder_accepts}
use post_quantum_uav_uav.Protocol.Trust.{Knows}
use post_quantum_uav_uav.Protocol.Offer.{Pair}
use post_quantum_uav_uav.Protocol.Honest.{IsMlKem}
use post_quantum_uav_uav.Protocol.Live.{IsAble}
use post_quantum_uav_uav.Protocol.Agree.{IsParty, services_of, session_completes}
use post_quantum_uav_uav.Tests.Toy.{toy, toy-IsDocumented, toy-IsReliable, toy-IsReliableHmac}
use post_quantum_uav_uav.Tests.Protocol.{
  uav_a, uav_b, uav_a-IsNode, uav_b-IsNode, mirrors, mirrors',
}

-- An ML-KEM with one key and one secret.
abbrev pub toy_kem : MlKem
toy_kem = record {
  Key = ℕ;
  key_init = (pos 0, 0);
  make_key = λ key random. (pos 0, 5);
  encode_public_key = λ key. (pos 0, replicate 800 key);
  decode_public_key = λ key public_key. (pos 0, 5);
  encapsulate = λ key random. (pos 0, replicate 768 key, replicate 32 key);
  decapsulate = λ key ciphertext. (pos 0, replicate 32 key);
}

generated_lem :
    (random : List ℕ) (key : ℕ) (public_key : List ℕ)
    → generate_key toy_kem random ≡ some (key, public_key)
    → (key ≡ 5) × (public_key ≡ replicate 800 5)
unfolding generate_key
generated_lem random key public_key e = (cc (e), cc (e))

answered_lem :
    (public_key random ciphertext secret : List ℕ)
    → answer_key toy_kem public_key random ≡ some (ciphertext, secret)
    → (ciphertext ≡ replicate 768 5) × (secret ≡ replicate 32 5)
unfolding answer_key
answered_lem public_key random ciphertext secret e = (cc (e), cc (e))

toy_kem-IsMlKem : IsMlKem toy_kem
unfolding open_ciphertext
toy_kem-IsMlKem = record {
  public_size = λ random key public_key e.
      ap length (generated_lem random key public_key e).1 ∙ length-replicate {A = ℕ} 800 5;
  ciphertext_size = λ public_key random ciphertext secret e.
      ap length (answered_lem public_key random ciphertext secret e).0
      ∙ length-replicate {A = ℕ} 768 5;
  opens = λ random random' public_key ciphertext secret key g e.
      ap (λ (k : ℕ). some (replicate 32 k)) (generated_lem random key public_key g).0
      ∙ ap some (sym (answered_lem public_key random' ciphertext secret e).1);
}

abbrev identifier : List ℕ
identifier = replicate 16 3

-- The tree of a node, from the seed that its PUF's root gives.
module _ (config : NodeConfig) where
  abbrev puf_root : List ℕ
  puf_root = replicate 32 1

  seed_lem :
      (seed : List ℕ) × (derive_lms_seed toy
          (some puf_root)
          (some config.device_id)
          config.credential_version
          (some config.lms_identifier)
        ≡ ok seed)
      × (length seed ≡ 32)
  seed_lem =
      derive_lms_seed-Succeeds toy toy-IsReliableHmac toy-IsDocumented puf_root config.device_id
        config.lms_identifier config.credential_version

  start : Lms
  start = record {
    identifier = identifier;
    seed = seed_lem.0;
    tree = some (replicate 2048 (replicate 32 0));
  }

  built : Lms
  built = (build_tree toy start).1

  set_up : initialize true fresh (some identifier) (some seed_lem.0) ≡ (true, start)
  unfolding initialize start
  set_up = refl

  finished : build_tree toy start ≡ (true, built)
  unfolding built
  finished =
      let fine : (build_tree toy start).0 ≡ true =
        build_tree_total toy toy-IsDocumented toy-IsReliable identifier seed_lem.0
          (length-replicate 16 3) seed_lem.2 true fresh start set_up in
      λ i. (fine i, built)

  root_lem : (top : List ℕ) × (root built ≡ some top)
  unfolding root
  root_lem =
      let (done, shape, tree) =
        built_tree toy true fresh start built identifier seed_lem.0 set_up finished in
      (node_at done 1, rw shape refl)

  public_record : PeerPublicRecord
  public_record = record {
    ready = true;
    version = 1;
    suite_id = suite_id_for_mode repository_assisted;
    status = 1;
    expiry_unix = 0;
    identifier = identifier;
    root = root_lem.0;
  }

abbrev now : ℕ
now = 1700000001

abbrev node_a : Node
node_a = record { config = uav_a; lms = built uav_a; peer_record = public_record uav_b }

abbrev node_b : Node
node_b = record { config = uav_b; lms = built uav_b; peer_record = public_record uav_a }

-- The repository hands out the peer's paths.
abbrev paths_of : Node → ℕ → ℕ → Option (List ℕ)
paths_of node version q = extract_path node.lms q

abbrev services : Services
services = record {
  w = toy;
  kem = toy_kem;
  fetch_peer_path = paths_of node_b;
  puf = some (replicate 32 1);
  now = now;
}

abbrev theirs : Services
theirs = services_of services (paths_of node_a) (some (replicate 32 1)) now

services-IsAble : IsAble services
unfolding generate_key answer_key
services-IsAble = record {
  documented = toy-IsDocumented;
  reliable = toy-IsReliable;
  hmac_reliable = toy-IsReliableHmac;
  generates = λ random. ((5, replicate 800 5), refl);
  answers = λ public_key random size. ((replicate 768 5, replicate 32 5), refl);
}

pair : Pair node_a node_b
pair = record { a_role = refl; b_role = refl; mirrors = mirrors }

runtime_lem :
    (config : NodeConfig)
    → timed_runtime_seed toy config (some (replicate 32 1)) ≡ some (seed_lem config).0
unfolding timed_runtime_seed
runtime_lem config = rw (seed_lem config).1 refl

a-IsParty : IsParty services node_a
a-IsParty = record {
  provisioned = record {
    allocated = true;
    old = fresh;
    start = start uav_a;
    identifier = identifier;
    seed = (seed_lem uav_a).0;
    set_up = set_up uav_a;
    finished = finished uav_a;
    runtime = runtime_lem uav_a;
  };
  seeded = record {
    identifier_size = length-replicate {A = ℕ} 16 3;
    seed_size = (seed_lem uav_a).2;
  };
  named = uav_a-IsNode;
  version_fits = omega arith;
}

b-IsParty : IsParty theirs node_b
b-IsParty = record {
  provisioned = record {
    allocated = true;
    old = fresh;
    start = start uav_b;
    identifier = identifier;
    seed = (seed_lem uav_b).0;
    set_up = set_up uav_b;
    finished = finished uav_b;
    runtime = runtime_lem uav_b;
  };
  seeded = record {
    identifier_size = length-replicate {A = ℕ} 16 3;
    seed_size = (seed_lem uav_b).2;
  };
  named = uav_b-IsNode;
  version_fits = omega arith;
}

b_knows : Knows services node_a a-IsParty.provisioned node_b (paths_of node_a)
unfolding public_record a-IsParty
b_knows = record { identifier = refl; root = (root_lem uav_a).1; mode = refl; paths = λ q. refl }

a_knows : Knows theirs node_b b-IsParty.provisioned node_a (paths_of node_b)
unfolding public_record b-IsParty
a_knows = record { identifier = refl; root = (root_lem uav_b).1; mode = refl; paths = λ q. refl }

b_valid : validate_peer_record uav_b (public_record uav_a) now 1 ≡ true
unfolding validate_peer_record public_record
b_valid = refl

a_valid : validate_peer_record uav_a (public_record uav_b) now 1 ≡ true
unfolding validate_peer_record public_record
a_valid = refl

abbrev draws : Draws
draws = record { kem_random = replicate 64 6; sign_random = replicate 32 9; flash = works }

a_reserved : reserve_q uav_a works none ≡ (some 4, some 5)
unfolding reserve_q
a_reserved = refl

b_reserved : reserve_q uav_b works (some 6) ≡ (some 6, some 7)
unfolding reserve_q
b_reserved = refl

abbrev nonce_a : List ℕ
nonce_a = replicate 16 20

abbrev nonce_b : List ℕ
nonce_b = replicate 16 21

abbrev m0 : List ℕ
m0 = build_m0 uav_a nonce_a

abbrev m1 : List ℕ
m1 = build_m1 uav_b nonce_a nonce_b

-- The bytes of M1.
abbrev m1_bytes : List ℕ
m1_bytes =
    greeting msg_m1_chal (replicate 32 11) (replicate 32 10) (nonce_a ++ nonce_b)
      (suite_id_for_mode repository_assisted)

m1_lem : m1 ≡ m1_bytes
m1_lem =
    build_m1-greeting uav_b nonce_a nonce_b uav_b-IsNode (length-replicate {A = ℕ} 16 20)
      (length-replicate {A = ℕ} 16 21)

m1_size : length m1_bytes ≡ 102
m1_size = omega (
  arith,
  length-append (replicate 32 11) (
      replicate 32 10 ++ ((nonce_a ++ nonce_b) ++ put_u32 (suite_id_for_mode repository_assisted))),
  length-append (replicate 32 10)
      ((nonce_a ++ nonce_b) ++ put_u32 (suite_id_for_mode repository_assisted)),
  length-append (nonce_a ++ nonce_b) (put_u32 (suite_id_for_mode repository_assisted)),
  length-append nonce_a nonce_b,
  length-put_u32 (suite_id_for_mode repository_assisted),
  length-replicate {A = ℕ} 32 11,
  length-replicate {A = ℕ} 32 10,
  length-replicate {A = ℕ} 16 20,
  length-replicate {A = ℕ} 16 21,
)

filled : (n b : ℕ) → IsByte b → All IsByte (replicate n b)
filled n b h = All-replicate IsByte n b h

m1-IsByte : All IsByte m1_bytes
m1-IsByte = (
  omega arith,
  (
    omega arith,
    All-append IsByte (replicate 32 11) _ (filled 32 11 (omega arith)) (
        All-append IsByte (replicate 32 10) _ (filled 32 10 (omega arith)) (
          All-append IsByte (nonce_a ++ nonce_b) _
            (All-append IsByte nonce_a nonce_b (filled 16 20 (omega arith))
              (filled 16 21 (omega arith)))
            (put_u32-IsByte (suite_id_for_mode repository_assisted)))),
  ),
)

m1_valid : validate_m1 uav_a m1 nonce_a ≡ some nonce_b
m1_valid =
    (validate_m1_iff uav_a uav_b nonce_a nonce_b m1 uav_a-IsNode mirrors'
        (length-replicate {A = ℕ} 16 20) (filled 16 20 (omega arith))
        (length-replicate {A = ℕ} 16 21) (ap length m1_lem ∙ m1_size)
        (subst (All IsByte) (sym m1_lem) m1-IsByte)).1
      refl

session_completes_example :
    (waiting : AwaitingM3 services node_a) × (keys : Keys) × (m3 : List ℕ) × (m4 : List ℕ)
    × (initiator_m2 services node_a draws none m0 nonce_a m1 ≡ (some waiting, some 5))
    × (responder_m3 theirs node_b draws (some 6) m0 m1 waiting.sid waiting.m2
        ≡ (some (keys, m3), some 7))
    × (initiator_m4 services node_a m0 m1 waiting m3 ≡ some (keys, m4))
    × (responder_accepts theirs node_b waiting.sid keys m4 ≡ some tt)
session_completes_example =
    session_completes services services-IsAble toy_kem-IsMlKem node_a node_b pair (paths_of node_a)
      (some (replicate 32 1)) now a-IsParty b-IsParty b_knows a_knows b_valid a_valid draws draws
      (length-replicate 32 9) (length-replicate 32 9) none (some 5) (some 6) (some 7) 4 6 a_reserved
      b_reserved m0 nonce_a m1 nonce_b m1_valid

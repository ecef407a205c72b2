-- ===== src/Tests/Begin.antt =====
-- The start of a node at concrete inputs.
use post_quantum_uav_uav.Prelude.{
  ℕ, ◌+◌, ◌%◌, ◌<◌, ◌≡◌, refl, subst, inl, true, some, none, List, [], ◌∷◌, All, All-replicate,
  length-replicate, replicate, arith,
}
use post_quantum_uav_uav.Prelude.Int.{pos}
use post_quantum_uav_uav.Codec.{IsByte}
use post_quantum_uav_uav.Crypto.{uint32_max}
use post_quantum_uav_uav.Transport.Fragment.{quiet, datagram}
use post_quantum_uav_uav.Transport.Send.{sent}
use post_quantum_uav_uav.Protocol.Counter.{works, initialize_persistent_counter}
use post_quantum_uav_uav.Protocol.Peer.{validate_peer_record}
use post_quantum_uav_uav.Protocol.Session.{Services}
use post_quantum_uav_uav.Protocol.Begin.{State, Surroundings, new_state, begin}
use post_quantum_uav_uav.Protocol.SetUp.{BringsBytes}
use post_quantum_uav_uav.Protocol.Ready.{IsReady, begin-IsReady}
use post_quantum_uav_uav.Protocol.Started.{IsConfigured, Meets, begin_total}
use post_quantum_uav_uav.Ledger.Wire.{op_root_record}
use post_quantum_uav_uav.Ledger.Client.{Attempt, Awaited, new_client}
use post_quantum_uav_uav.Ledger.Enroll.{ack_for}
use post_quantum_uav_uav.Ledger.Fetch.{root_awaited}
use post_quantum_uav_uav.Ledger.Server.{RootRow}
use post_quantum_uav_uav.Ledger.Through.{IsReached}
use post_quantum_uav_uav.Ledger.Layout.{packet}
use post_quantum_uav_uav.Ledger.Exchange.{IsIdentity}
use post_quantum_uav_uav.Ledger.Acknowledged.{ack, ack-IsPacket}
use post_quantum_uav_uav.Ledger.Heard.{HoldsBytes}
use post_quantum_uav_uav.Ledger.RootReply.{IsRow, record_of, root_record-IsPacket, root_fields}
use post_quantum_uav_uav.Tests.Toy.{toy, toy-IsDocumented, toy-IsReliable, toy-IsReliableHmac}
use post_quantum_uav_uav.Tests.Protocol.{uav_a, uav_a-IsNode}
use post_quantum_uav_uav.Tests.Session.{toy_kem}
use post_quantum_uav_uav.Tests.Ledger.{tag, toy-Agrees, filled-IsIdentity}

-- A response from the ledger after silence and a stray datagram.
abbrev with_noise : List ℕ → Attempt
with_noise reply = record {
  answer = sent;
  arrivals = quiet ∷ datagram (1 ∷ 2 ∷ []) 8 8 ∷ datagram reply 1 5001 ∷ [];
}

with_noise-HoldsBytes :
    (reply : List ℕ) → All IsByte reply → All HoldsBytes (with_noise reply).arrivals
with_noise-HoldsBytes reply h = (tt, ((omega arith, (omega arith, tt)), (h, tt)))

with_noise-IsReached :
    (e : Awaited) (reply : List ℕ)
    → All IsByte reply
    → IsReached toy e 1 5001 reply (λ j. with_noise reply)
with_noise-IsReached e reply h = record {
  k = 0;
  tried = omega arith;
  sends = λ j. refl;
  holds_bytes = λ j. with_noise-HoldsBytes reply h;
  noise_before = λ j before. absurd (omega arith);
  before = quiet ∷ datagram (1 ∷ 2 ∷ []) 8 8 ∷ [];
  after = [];
  noise = (tt, (inl (omega arith), tt));
  arrivals = refl;
}

device : IsIdentity (replicate 32 10)
device = filled-IsIdentity 10 (omega arith)

peer : IsIdentity (replicate 32 11)
peer = filled-IsIdentity 11 (omega arith)

abbrev row : RootRow
row = record {
  identifier = replicate 16 3;
  root = replicate 32 8;
  suite_id = 0x00010001;
  status = 1;
  expiry_unix = 0;
}

row-IsRow : IsRow row
row-IsRow = record {
  identifier_size = length-replicate {A = ℕ} 16 3;
  identifier_bytes = All-replicate IsByte 16 3 (omega arith);
  root_size = length-replicate {A = ℕ} 32 8;
  root_bytes = All-replicate IsByte 32 8 (omega arith);
  suite_fits = omega arith;
  status_fits = omega arith;
  expiry_fits = omega arith;
}

abbrev ack_of : ℕ → List ℕ
ack_of q = ack tag (replicate 32 10) 1 q

ack_of-IsByte : (q : ℕ) → q < 1024 → All IsByte (ack_of q)
ack_of-IsByte q h =
    (ack-IsPacket toy toy-IsDocumented tag toy-Agrees (replicate 32 10) device 1 q (omega arith)
      h).holds_bytes

abbrev peer_root : List ℕ
peer_root = packet tag (root_fields op_root_record (replicate 32 11) 1 row) 0

peer_root-IsByte : All IsByte peer_root
peer_root-IsByte =
    (root_record-IsPacket toy toy-IsDocumented tag toy-Agrees
      (record new_client { device_id = replicate 32 10; peer_id = replicate 32 11 })
      (record {
        size = length-replicate {A = ℕ} 400 0;
        bytes = All-replicate IsByte 400 0 (omega arith);
      })
      device peer 1 (omega arith) row row-IsRow).holds_bytes

abbrev surroundings : Surroundings
surroundings = record {
  puf = some (replicate 32 1);
  allocated = true;
  connects = true;
  transport_opens = true;
  gcs_opens = true;
  root_attempts = λ j. with_noise (ack_of 0);
  path_attempts = λ i j. with_noise (ack_of ((4 + i) % 1024));
  peer_attempts = λ i j. with_noise peer_root;
  now = 1700000001;
  rng_ret = pos 0;
  nvs_opens = true;
  flash = works;
}

brings : BringsBytes surroundings
brings = record {
  root = λ j. with_noise-HoldsBytes (ack_of 0) (ack_of-IsByte 0 (omega arith));
  paths = λ i j.
      with_noise-HoldsBytes (ack_of ((4 + i) % 1024))
        (ack_of-IsByte ((4 + i) % 1024) (omega arith));
  peer = λ i j. with_noise-HoldsBytes peer_root peer_root-IsByte;
}

uav_a-IsConfigured : IsConfigured uav_a
uav_a-IsConfigured = record {
  named = uav_a-IsNode;
  identifier_size = length-replicate {A = ℕ} 16 3;
  identifier_bytes = All-replicate IsByte 16 3 (omega arith);
  version_fits = omega arith;
  peer_version_fits = omega arith;
  expiry_fits = omega arith;
  some_sessions = omega arith;
  in_tree = omega arith;
}

row_valid : validate_peer_record uav_a (record_of 1 row) 1700000001 1 ≡ true
unfolding validate_peer_record
row_valid = refl

counted : initialize_persistent_counter uav_a true works none ≡ (true, none)
unfolding initialize_persistent_counter
counted = refl

path-IsReached :
    (i : ℕ)
    → i < 3
    → IsReached toy (ack_for 1 (4 + i)) 1 5001 (ack_of (4 + i)) (surroundings.path_attempts i)
path-IsReached i h =
    let same : 4 + i ≡ (4 + i) % 1024 = omega (arith, h) in
    subst
      (λ q. IsReached toy (ack_for 1 (4 + i)) 1 5001 (ack_of (4 + i)) (λ j. with_noise (ack_of q)))
      same
      (with_noise-IsReached (ack_for 1 (4 + i)) (ack_of (4 + i))
        (ack_of-IsByte (4 + i) (omega (arith, h))))

meets : Meets toy tag surroundings uav_a row none none
meets = record {
  puf_root = replicate 32 1;
  reconstructs = refl;
  allocated = refl;
  connects = refl;
  transport_opens = refl;
  gcs_opens = refl;
  root_reached =
      with_noise-IsReached (ack_for 1 uint32_max) (ack_of 0) (ack_of-IsByte 0 (omega arith));
  paths_reached = λ mode. path-IsReached;
  peer_reached = with_noise-IsReached (root_awaited 1) peer_root peer_root-IsByte;
  valid = row_valid;
  rng = refl;
  counter = counted;
}

begun :
    (state : State) × (begin toy surroundings none (new_state uav_a) ≡ some (state, none))
    × (state.ready ≡ true)
    × (state.peer_record ≡ record_of 1 row)
begun =
    begin_total toy toy-IsDocumented toy-IsReliable toy-IsReliableHmac tag toy-Agrees surroundings
      brings uav_a uav_a-IsConfigured row row-IsRow none none meets

begin_total_example :
    (state : State) × (begin toy surroundings none (new_state uav_a) ≡ some (state, none))
    × (state.ready ≡ true)
    × (state.peer_record ≡ record_of 1 row)
begin_total_example =
    begin_total toy toy-IsDocumented toy-IsReliable toy-IsReliableHmac tag toy-Agrees surroundings
      brings uav_a uav_a-IsConfigured row row-IsRow none none meets

abbrev services : Services
services = record {
  w = toy;
  kem = toy_kem;
  fetch_peer_path = λ version q. none;
  puf = some (replicate 32 1);
  now = 1700000001;
}

begin-IsReady_example : IsReady services surroundings uav_a begun.0 none
begin-IsReady_example =
    begin-IsReady services toy-IsDocumented surroundings refl uav_a uav_a-IsNode brings none none
      begun.0 refl begun.1

-- ===== src/Transport/Receive.antt =====
-- `FragmentedUdp::receiveMessage`. The rounds of its loop before the timeout are a list of arrivals.
use post_quantum_uav_uav.Prelude.{
  ℕ, ◌+◌, ◌*◌, ◌%◌, ◌^◌, Bool, true, false, not, ◌&&◌, ◌||◌, Option, none, some, List, [], ◌∷◌, ltb,
  ◌==◌, if◌then◌else◌, take, replicate, get_or, set, write_at,
}
use post_quantum_uav_uav.Crypto.{Pointer}
use post_quantum_uav_uav.Transport.Fragment.{
  Fragment, Arrival, read_one_datagram, fragment_payload_bytes, max_fragments,
}

pub record ReceivedPacket : Type 0 where
  pub type : ℕ
  pub session : ℕ
  pub length : ℕ
  pub source_ip : ℕ
  pub source_port : ℕ
  pub framed_bytes : ℕ

-- The local variables of `receiveMessage`, and the caller's buffer.
pub record Assembly : Type 0 where
  pub received_fragments : List Bool
  pub active_type : ℕ
  pub active_session : ℕ
  pub active_length : ℕ
  pub active_count : ℕ
  pub completed : ℕ
  pub active : Bool
  pub framed_bytes : ℕ
  pub active_ip : ℕ
  pub active_port : ℕ
  pub output : List ℕ

abbrev pub start : List ℕ → Assembly
start output = record {
  received_fragments = replicate max_fragments false;
  active_type = 0;
  active_session = 0;
  active_length = 0;
  active_count = 0;
  completed = 0;
  active = false;
  framed_bytes = 0;
  active_ip = 0;
  active_port = 0;
  output = output;
}

-- What the caller asks for.
pub record Request : Type 0 where
  pub expected_type : ℕ
  pub expected_session : ℕ
  pub output_capacity : ℕ

-- The tests on the type and the session that the caller expects.
abbrev pub is_wanted : Request → ℕ → ℕ → Bool
is_wanted r type session =
    ((r.expected_type == 0xff) || (type == r.expected_type))
    && ((r.expected_session == 0) || (session == r.expected_session))

abbrev pub is_expected : Request → Fragment → Bool
is_expected r f = is_wanted r f.type f.session

-- `if (!active) { ... }`: the first fragment fixes the message.
unfoldable pub activate : Assembly → Fragment → Assembly
activate a f = if a.active then a else record a {
  active = true;
  active_type = f.type;
  active_session = f.session;
  active_length = f.total_length;
  active_count = f.fragment_count;
  active_ip = f.source_ip;
  active_port = f.source_port;
  framed_bytes = 0;
}

-- The fragment belongs to the message in progress, and fits it.
abbrev pub belongs : Assembly → Fragment → Bool
belongs a f =
    (f.type == a.active_type)
    && (f.session == a.active_session)
    && (f.total_length == a.active_length)
    && (f.fragment_count == a.active_count)
    && (f.source_ip == a.active_ip)
    && (f.source_port == a.active_port)
    && not (ltb a.active_length (f.fragment_index * fragment_payload_bytes + f.payload_length))

-- `if (!receivedFragments[fragmentIndex]) { ... }`
unfoldable pub store : Assembly → Fragment → Assembly
store a f = if get_or a.received_fragments f.fragment_index false then a else record a {
  output =
      write_at (f.fragment_index * fragment_payload_bytes) (take f.payload_length f.payload)
        a.output;
  received_fragments = set a.received_fragments f.fragment_index true;
  completed = (a.completed + 1) % 256;
  framed_bytes = (a.framed_bytes + f.datagram_bytes) % 2 ^ 32;
}

abbrev pub packet_of : Assembly → ReceivedPacket
packet_of a = record {
  type = a.active_type;
  session = a.active_session;
  length = a.active_length;
  source_ip = a.active_ip;
  source_port = a.active_port;
  framed_bytes = a.framed_bytes;
}

-- The body of the loop once a datagram is read: what it leaves, and whether it went through to the
-- test at its end.
unfoldable pub handle_fragment : Request → Assembly → Fragment → Assembly × Bool
handle_fragment r a f =
    if not (is_expected r f)
    then (a, false)
    else if not a.active && ltb r.output_capacity f.total_length
    then (a, false)
    else if belongs (activate a f) f
    then (store (activate a f) f, true)
    else (activate a f, false)

abbrev pub handle : Request → Assembly → Option Fragment → Assembly × Bool
handle r a none = (a, false)
handle r a (some f) = handle_fragment r a f

abbrev pub round : Request → Assembly → Arrival → Assembly × Bool
round r a arrival = handle r a (read_one_datagram arrival)

-- The loop returns once a round went through and `completed == activeCount`; it ends without a packet
-- where the arrivals before the timeout are used up.
unfoldable pub receive_loop : Request → Assembly → List Arrival → Option ReceivedPacket × Assembly
receive_loop r a [] = (none, a)
receive_loop r a (arrival ∷ arrivals) =
    let (next, through) = round r a arrival in
    let rest = receive_loop r next arrivals in
    if through && (next.completed == next.active_count) then (some (packet_of next), next) else rest

unfoldable pub receive_message : Request → Pointer → List Arrival → Option ReceivedPacket × Pointer
receive_message r none arrivals = (none, none)
receive_message r (some output) arrivals =
    let (packet, a) = receive_loop r (start output) arrivals in (packet, some a.output)

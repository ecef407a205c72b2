-- ===== src/Ledger/Fetch.antt =====
-- `fetchPeerRoot` and `fetchPeerPath`, without the metrics of the latter.
use post_quantum_uav_uav.Prelude.{
  ℕ, zero, suc, ◌+◌, Bool, true, not, ◌||◌, Option, none, some, List, leb, ◌==◌, if◌then◌else◌,
  drop, slice,
}
use post_quantum_uav_uav.Codec.{get_u32, get_u64, byte_at, constant_time_equal}
use post_quantum_uav_uav.Crypto.{WolfCrypt, uint32_max}
use post_quantum_uav_uav.Lms.Tree.{lms_leaves}
use post_quantum_uav_uav.Protocol.Peer.{PeerPublicRecord}
use post_quantum_uav_uav.Ledger.Wire.{
  with_tag, get_root_body, get_path_body, get_root_bytes, get_path_bytes, root_record_bytes,
  path_record_bytes, op_root_record, op_path_record,
}
use post_quantum_uav_uav.Ledger.Client.{Client, Attempt, Awaited, send_and_receive}

-- The response has the record's size and names the peer.
abbrev pub is_record_of : ℕ → ℕ → Client → Bool
is_record_of size n c =
    not (not (n == size) || not (constant_time_equal (drop 8 c.buffer) c.peer_id 32))

-- What `fetchPeerRoot` reads from the buffer.
abbrev pub record_in : List ℕ → PeerPublicRecord
record_in buffer = record {
  ready = true;
  version = get_u32 (drop 40 buffer);
  identifier = slice 44 16 buffer;
  root = slice 60 32 buffer;
  suite_id = get_u32 (drop 92 buffer);
  status = byte_at buffer 96;
  expiry_unix = get_u64 (drop 100 buffer);
}

abbrev pub root_awaited : ℕ → Awaited
root_awaited version = record {
  expected_op = op_root_record;
  expected_version = version;
  expected_q = uint32_max;
}

abbrev pub path_awaited : ℕ → ℕ → Awaited
path_awaited version q = record {
  expected_op = op_path_record;
  expected_version = version;
  expected_q = q;
}

-- A round that got no response is followed by the next one.
abbrev pub root_round :
    Option ℕ × Client → Option PeerPublicRecord × Client → Option PeerPublicRecord × Client
root_round (none, c) rest = rest
root_round (some n, c) rest =
    if is_record_of root_record_bytes n c then (some (record_in c.buffer), c) else (none, c)

abbrev pub path_answer : Option ℕ × Client → Option (List ℕ) × Client
path_answer (none, c) = (none, c)
path_answer (some n, c) =
    (if is_record_of path_record_bytes n c then some (slice 48 320 c.buffer) else none, c)

module _ (w : WolfCrypt) where
  unfoldable pub root_query : Client → ℕ → Option (List ℕ)
  root_query c version = with_tag w get_root_bytes (get_root_body c.device_id c.peer_id version)

  unfoldable pub path_query : Client → ℕ → ℕ → Option (List ℕ)
  path_query c version q = with_tag w get_path_bytes (get_path_body c.device_id c.peer_id version q)

  -- `for (waitRound = 0; waitRound < 120; ++waitRound)`, `rounds` to go.
  unfoldable pub fetch_root_loop :
      ℕ → List ℕ → (ℕ → ℕ → Attempt) → ℕ → ℕ → Client → Option PeerPublicRecord × Client
  fetch_root_loop version request attempts zero wait_round c = (none, c)
  fetch_root_loop version request attempts (suc rounds) wait_round c =
      let answer = send_and_receive w (root_awaited version) request (attempts wait_round) c in
      root_round answer (fetch_root_loop version request attempts rounds (wait_round + 1) answer.1)

  unfoldable pub fetch_peer_root : ℕ → (ℕ → ℕ → Attempt) → Client → Option PeerPublicRecord × Client
  fetch_peer_root version attempts c = elim (root_query c version) [
    | none ↦ (none, c)
    | some request ↦ fetch_root_loop version request attempts 120 0 c
  ]

  -- `path` is never null.
  unfoldable pub fetch_peer_path : ℕ → ℕ → (ℕ → Attempt) → Client → Option (List ℕ) × Client
  fetch_peer_path version q attempts c =
      if leb lms_leaves q then (none, c) else elim (path_query c version q) [
        | none ↦ (none, c)
        | some request ↦
            path_answer (send_and_receive w (path_awaited version q) request attempts c)
      ]

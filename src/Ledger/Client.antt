-- ===== src/Ledger/Client.antt =====
-- Class `GcsLedgerClient`: its state, `begin` and `sendAndReceive`. The UDP stack's answers and what the
-- socket brings in each attempt, after what was pending is thrown away, are arguments.
use post_quantum_uav_uav.Prelude.{
  ℕ, zero, suc, ◌+◌, ◌-◌, ◌%◌, ◌^◌, Bool, false, not, ◌&&◌, ◌||◌, Option, none, some, List, [], ◌∷◌,
  ◌++◌, ltb, ◌==◌, if◌then◌else◌, length, take, drop, replicate, write_at, same_bytes,
}
use post_quantum_uav_uav.Codec.{get_u32, byte_at, constant_time_equal}
use post_quantum_uav_uav.Crypto.{WolfCrypt, uint32_max}
use post_quantum_uav_uav.Transport.Fragment.{Arrival, quiet, datagram}
use post_quantum_uav_uav.Transport.Send.{UdpAnswer, sent, begin_failed, write_short, end_failed}
use post_quantum_uav_uav.Ledger.Wire.{
  compute_tag, magic, hmac_bytes, max_gcs_packet_bytes, op_ack, op_root_record, op_path_record,
  op_not_found,
}

-- `outbox` holds the datagrams that `m_udp` sent. An address is a number.
pub record Client : Type 0 where
  pub gcs_ip : ℕ
  pub gcs_port : ℕ
  pub local_port : ℕ
  pub device_id : List ℕ
  pub peer_id : List ℕ
  pub buffer : List ℕ
  pub tx_bytes : ℕ
  pub rx_bytes : ℕ
  pub outbox : List (List ℕ)

abbrev pub new_client : Client
new_client = record {
  gcs_ip = 0;
  gcs_port = 0;
  local_port = 0;
  device_id = replicate 32 0;
  peer_id = replicate 32 0;
  buffer = replicate max_gcs_packet_bytes 0;
  tx_bytes = 0;
  rx_bytes = 0;
  outbox = [];
}

-- `opened` is whether `m_udp.begin(localPort) == 1`.
unfoldable pub begin : Bool → Client → ℕ → ℕ → ℕ → List ℕ → List ℕ → Bool × Client
begin opened c gcs_ip gcs_port local_port device_id peer_id = (
  opened,
  record c {
    gcs_ip = gcs_ip;
    gcs_port = gcs_port;
    local_port = local_port;
    device_id = device_id;
    peer_id = peer_id;
  },
)

-- What `sendAndReceive` waits for.
pub record Awaited : Type 0 where
  pub expected_op : ℕ
  pub expected_version : ℕ
  pub expected_q : ℕ

-- One attempt: the answer to sending the request, and the rounds before the timeout.
pub record Attempt : Type 0 where
  pub answer : UdpAnswer
  pub arrivals : List Arrival

-- `continue`, `return false` on NOT_FOUND, and `return true` with the response's length.
pub data Verdict : Type 0 where
  skipped not_found : Verdict
  taken : ℕ → Verdict

abbrev pub received_version : ℕ → List ℕ → ℕ
received_version op buffer =
    if (op == op_ack) || (op == op_root_record) || (op == op_path_record)
    then get_u32 (drop 40 buffer)
    else 0

abbrev pub received_q : ℕ → List ℕ → ℕ
received_q op buffer =
    if (op == op_ack) || (op == op_path_record) then get_u32 (drop 44 buffer) else 0

-- `receivedVersion != expectedVersion || (expectedQ != UINT32_MAX && receivedQ != expectedQ)`
abbrev pub is_other : Awaited → List ℕ → Bool
is_other e buffer =
    not (received_version (byte_at buffer 4) buffer == e.expected_version)
    || (not (e.expected_q == uint32_max)
        && not (received_q (byte_at buffer 4) buffer == e.expected_q))

-- The tests on an authentic response of `length` bytes in the buffer.
unfoldable pub verdict_on : Awaited → List ℕ → ℕ → Verdict
verdict_on e buffer length =
    if byte_at buffer 4 == op_not_found
    then not_found
    else if not (byte_at buffer 4 == e.expected_op)
    then skipped
    else if is_other e buffer
    then skipped
    else taken length

abbrev pub equals_tag : List ℕ → Option (List ℕ) → Bool
equals_tag received_tag none = false
equals_tag received_tag (some expected_tag) =
    constant_time_equal received_tag expected_tag hmac_bytes

abbrev pub read_into : Client → List ℕ → Client
read_into c bytes = record c { buffer = write_at 0 bytes c.buffer }

abbrev pub count_read : Client → ℕ → Client
count_read c n = record c { rx_bytes = (c.rx_bytes + n) % 2 ^ 32 }

abbrev pub unless_settled : Verdict × Client → Verdict × Client → Verdict × Client
unless_settled (skipped, c) rest = rest
unless_settled (not_found, c) rest = (not_found, c)
unless_settled (taken n, c) rest = (taken n, c)

abbrev pub concluded : Verdict × Client → Option ℕ × Client → Option ℕ × Client
concluded (skipped, c) rest = rest
concluded (not_found, c) rest = (none, c)
concluded (taken n, c) rest = (some n, c)

abbrev pub sending : Client → List ℕ → Client
sending c request = record c {
  tx_bytes = (c.tx_bytes + length request) % 2 ^ 32;
  outbox = c.outbox ++ (request ∷ []);
}

-- `beginPacket`, `write` of the whole request and `endPacket`.
abbrev pub if_sent {ℓ} : {A : Type ℓ} → UdpAnswer → A → A → A
if_sent sent x y = x
if_sent begin_failed x y = y
if_sent write_short x y = y
if_sent end_failed x y = y

abbrev gcs_retries : ℕ
gcs_retries = 4

module _ (w : WolfCrypt) where
  unfoldable pub is_authentic : List ℕ → ℕ → Bool
  is_authentic buffer length =
      equals_tag (drop (length - hmac_bytes) buffer) (compute_tag w buffer (length - hmac_bytes))

  -- What follows `m_udp.read` and the test of its length.
  unfoldable pub judge : Awaited → Client → ℕ → ℕ → ℕ → Verdict
  judge e c length source_ip source_port =
      if not (source_ip == c.gcs_ip)
        || not (source_port == c.gcs_port)
        || not (same_bytes (take 4 c.buffer) magic)
      then skipped
      else if not (is_authentic c.buffer length)
      then skipped
      else verdict_on e c.buffer length

  -- The body of the inner loop.
  unfoldable pub handle_arrival : Awaited → Client → Arrival → Verdict × Client
  handle_arrival e c quiet = (skipped, c)
  handle_arrival e c (datagram bytes source_ip source_port) =
      if (length bytes == 0) || ltb max_gcs_packet_bytes (length bytes)
      then (skipped, c)
      else if ltb (length bytes) (8 + hmac_bytes)
      then (skipped, read_into c bytes)
      else (let c' = count_read (read_into c bytes) (length bytes) in
          (judge e c' (length bytes) source_ip source_port, c'))

  -- `while (millis() - startMs < GCS_TIMEOUT_MS)`
  unfoldable pub wait_loop : Awaited → Client → List Arrival → Verdict × Client
  wait_loop e c [] = (skipped, c)
  wait_loop e c (arrival ∷ arrivals) =
      let now = handle_arrival e c arrival in unless_settled now (wait_loop e now.1 arrivals)

  -- `for (attempt = 0; attempt < GCS_RETRIES; ++attempt)`, `rounds` to go.
  unfoldable pub attempt_loop :
      Awaited → List ℕ → (ℕ → Attempt) → ℕ → ℕ → Client → Option ℕ × Client
  attempt_loop e request attempts zero attempt c = (none, c)
  attempt_loop e request attempts (suc rounds) attempt c =
      let now = wait_loop e (sending c request) (attempts attempt).arrivals in
      if_sent (attempts attempt).answer
        (concluded now (attempt_loop e request attempts rounds (attempt + 1) now.1)) (none, c)

  -- The response's length where the call returns true.
  unfoldable pub send_and_receive : Awaited → List ℕ → (ℕ → Attempt) → Client → Option ℕ × Client
  send_and_receive e request attempts c = attempt_loop e request attempts gcs_retries 0 c

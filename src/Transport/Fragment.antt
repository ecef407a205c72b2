-- ===== src/Transport/Fragment.antt =====
-- The datagrams of FragmentedUdp.cpp: the header that `sendMessage` writes, and the datagram that
-- `readOneDatagram` accepts.
use post_quantum_uav_uav.Prelude.{
  ℕ, ◌+◌, ◌-◌, ◌*◌, ◌%◌, Bool, not, ◌||◌, Option, none, some, List, ◌∷◌, ◌++◌, ltb, leb, ◌==◌,
  if◌then◌else◌, length, slice, drop, min,
}
use post_quantum_uav_uav.Codec.{put_u16, put_u32, get_u16, get_u32, byte_at}

abbrev protocol_version : ℕ
protocol_version = 1

abbrev pub fragment_magic : ℕ
fragment_magic = 0xa55a

abbrev pub fragment_header_bytes : ℕ
fragment_header_bytes = 14

abbrev pub fragment_payload_bytes : ℕ
fragment_payload_bytes = 1000

abbrev pub max_fragments : ℕ
max_fragments = 8

-- M3_MAX_BYTES = 36 + (2990 + 320) + 32
abbrev pub max_protocol_message_bytes : ℕ
max_protocol_message_bytes = 3378

-- The fields that `readOneDatagram` stores through its references, and the payload that it leaves
-- in `m_fragmentBuffer` behind the header. An address is a number.
pub record Fragment : Type 0 where
  pub type : ℕ
  pub session : ℕ
  pub total_length : ℕ
  pub fragment_index : ℕ
  pub fragment_count : ℕ
  pub payload_length : ℕ
  pub source_ip : ℕ
  pub source_port : ℕ
  pub datagram_bytes : ℕ
  pub payload : List ℕ

-- `payload_length = min(FRAGMENT_PAYLOAD_BYTES, length - sourceOffset)`
abbrev pub payload_length_of : ℕ → ℕ → ℕ
payload_length_of length fragment_index =
    min fragment_payload_bytes (length - fragment_index * fragment_payload_bytes) % 65536

-- What `sendMessage` puts in `m_fragmentBuffer` for one fragment.
unfoldable pub fragment_bytes : ℕ → ℕ → List ℕ → ℕ → ℕ → ℕ → List ℕ
fragment_bytes type session message length fragment_count fragment_index =
    let payload_length = payload_length_of length fragment_index in
    put_u16 fragment_magic
    ++ (protocol_version
        ∷ type
        ∷ (put_u32 session
            ++ (put_u16 length
                ++ (fragment_index
                    ∷ fragment_count
                    ∷ (put_u16 payload_length
                        ++ slice (fragment_index * fragment_payload_bytes) payload_length
                            message)))))

-- One look at the socket: nothing has come, or a datagram with its sender's address and port.
pub data Arrival : Type 0 where
  quiet : Arrival
  datagram : List ℕ → ℕ → ℕ → Arrival

-- The checks on the header fields.
abbrev pub is_acceptable : Fragment → Bool
is_acceptable f = not (
    (f.fragment_count == 0)
    || ltb max_fragments f.fragment_count
    || leb f.fragment_count f.fragment_index
    || ltb fragment_payload_bytes f.payload_length
    || not (fragment_header_bytes + f.payload_length == f.datagram_bytes)
    || ltb max_protocol_message_bytes f.total_length)

abbrev pub parse_fragment : List ℕ → ℕ → ℕ → Fragment
parse_fragment bytes ip port = record {
  type = byte_at bytes 3;
  session = get_u32 (drop 4 bytes);
  total_length = get_u16 (drop 8 bytes);
  fragment_index = byte_at bytes 10;
  fragment_count = byte_at bytes 11;
  payload_length = get_u16 (drop 12 bytes);
  source_ip = ip;
  source_port = port;
  datagram_bytes = length bytes;
  payload = drop 14 bytes;
}

unfoldable pub read_one_datagram : Arrival → Option Fragment
read_one_datagram quiet = none
read_one_datagram (datagram bytes ip port) =
    if (length bytes == 0) || ltb (fragment_header_bytes + fragment_payload_bytes) (length bytes)
    then none
    else if ltb (length bytes) fragment_header_bytes
    then none
    else if not (get_u16 bytes == fragment_magic) || not (byte_at bytes 2 == protocol_version)
    then none
    else if is_acceptable (parse_fragment bytes ip port)
    then some (parse_fragment bytes ip port)
    else none

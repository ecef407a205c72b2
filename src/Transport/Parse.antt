-- ===== src/Transport/Parse.antt =====
-- FragmentedUdp.cpp: `readOneDatagram` reads back what `sendMessage` wrote.
use post_quantum_uav_uav.Prelude.{
  ℕ, ◌+◌, ◌*◌, ◌^◌, ◌≤◌, ◌<◌, ◌≡◌, refl, ap, ◌∙◌, true, false, some, List, ◌∷◌, ◌++◌, ◌==◌, length,
  slice, drop, arith, length-slice, ltb-false,
}
use post_quantum_uav_uav.Codec.{put_u16, put_u32, get_u16, get_u32, byte_at}
use post_quantum_uav_uav.Codec.Integers.{get_u16-put_u16, get_u32-put_u32}
use post_quantum_uav_uav.Transport.Fragment.{
  Fragment, datagram, fragment_bytes, payload_length_of, read_one_datagram, parse_fragment,
  is_acceptable, fragment_magic,
}
use post_quantum_uav_uav.Transport.Send.{fragment_count_of}

-- A message that `sendMessage` takes, with fields that fit their widths.
pub record IsSendable (type session : ℕ) (message : List ℕ) : Type 0 where
  pub type_fits : type < 256
  pub session_fits : session < 2 ^ 32
  pub not_empty : 0 < length message
  pub fits : length message ≤ 3378

-- The fragment `i` of a message, as its receiver should read it.
abbrev pub sent_fragment : ℕ → ℕ → List ℕ → ℕ → ℕ → ℕ → Fragment
sent_fragment type session message ip port i = record {
  type = type;
  session = session;
  total_length = length message;
  fragment_index = i;
  fragment_count = fragment_count_of (length message);
  payload_length = payload_length_of (length message) i;
  source_ip = ip;
  source_port = port;
  datagram_bytes = 14 + payload_length_of (length message) i;
  payload = slice (i * 1000) (payload_length_of (length message) i) message;
}

abbrev pub sent_bytes : ℕ → ℕ → List ℕ → ℕ → List ℕ
sent_bytes type session message i =
    fragment_bytes type session message (length message) (fragment_count_of (length message)) i

-- The checks on the bytes, each on its own.
pub accepted :
    (bytes : List ℕ) (ip port : ℕ)
    → 14 ≤ length bytes
    → length bytes ≤ 1014
    → get_u16 bytes ≡ fragment_magic
    → byte_at bytes 2 ≡ 1
    → is_acceptable (parse_fragment bytes ip port) ≡ true
    → read_one_datagram (datagram bytes ip port) ≡ some (parse_fragment bytes ip port)
unfolding read_one_datagram
accepted bytes ip port lo hi magic version fields =
    rw
      (
        positive,
        ltb-false 1014 (length bytes) hi,
        ltb-false (length bytes) 14 lo,
        magic,
        version,
        fields,
      )
      refl
  where
    positive : (length bytes == 0) ≡ false
    positive = ground arith

module _ (type session : ℕ) (message : List ℕ) (sendable : IsSendable type session message) where
  pub payload_bounds :
      (i : ℕ)
      → i < fragment_count_of (length message)
      → (0 < payload_length_of (length message) i)
        × (payload_length_of (length message) i ≤ 1000)
        × (i * 1000 + payload_length_of (length message) i ≤ length message)
  payload_bounds i h = omega (arith, sendable.fits)

  length-sent_bytes :
      (i : ℕ)
      → i < fragment_count_of (length message)
      → length (sent_bytes type session message i) ≡ 14 + payload_length_of (length message) i
  unfolding fragment_bytes put_u16 put_u32
  length-sent_bytes i h =
      let (lo, hi, within) = payload_bounds i h in
      omega (arith, length-slice (i * 1000) (payload_length_of (length message) i) message within)

  parse-sent_bytes :
      (i ip port : ℕ)
      → i < fragment_count_of (length message)
      → parse_fragment (sent_bytes type session message i) ip port
        ≡ sent_fragment type session message ip port i
  unfolding fragment_bytes put_u16 put_u32
  parse-sent_bytes i ip port h =
      let payload = slice (i * 1000) (payload_length_of (length message) i) message in
      let tail = put_u16 (payload_length_of (length message) i) ++ payload in
      let rest = put_u16 (length message) ++ (i ∷ fragment_count_of (length message) ∷ tail) in
      let session_read : get_u32 (put_u32 session ++ rest) ≡ session =
        get_u32-put_u32 session rest sendable.session_fits in
      let length_read : get_u16 rest ≡ length message =
        get_u16-put_u16 (length message) (i ∷ fragment_count_of (length message) ∷ tail)
          (omega (arith, sendable.fits)) in
      let payload_read : get_u16 tail ≡ payload_length_of (length message) i =
        get_u16-put_u16 (payload_length_of (length message) i) payload
          (omega (arith, payload_bounds i h)) in
      let size_read : length (sent_bytes type session message i)
          ≡ 14 + payload_length_of (length message) i =
        length-sent_bytes i h in
      λ k. record {
        type = type;
        session = session_read k;
        total_length = length_read k;
        fragment_index = i;
        fragment_count = fragment_count_of (length message);
        payload_length = payload_read k;
        source_ip = ip;
        source_port = port;
        datagram_bytes = size_read k;
        payload = payload;
      }

  acceptable-sent_fragment :
      (i ip port : ℕ)
      → i < fragment_count_of (length message)
      → is_acceptable (sent_fragment type session message ip port i) ≡ true
  acceptable-sent_fragment i ip port h =
      let (lo, hi, within) = payload_bounds i h in ground (arith, sendable.fits)

  -- What `sendMessage` wrote for a fragment is read back as that fragment.
  pub read_one_datagram-sent_bytes :
      (i ip port : ℕ)
      → i < fragment_count_of (length message)
      → read_one_datagram (datagram (sent_bytes type session message i) ip port)
        ≡ some (sent_fragment type session message ip port i)
  unfolding fragment_bytes put_u16
  read_one_datagram-sent_bytes i ip port h =
      let (lo, hi, within) = payload_bounds i h in
      accepted (sent_bytes type session message i) ip port (omega (arith, length-sent_bytes i h))
        (omega (arith, length-sent_bytes i h))
        (get_u16-put_u16 fragment_magic (drop 2 (sent_bytes type session message i)) (omega arith))
        refl
        (ap is_acceptable (parse-sent_bytes i ip port h) ∙ acceptable-sent_fragment i ip port h)
      ∙ ap some (parse-sent_bytes i ip port h)

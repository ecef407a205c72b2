-- ===== src/Transport/Hollow.antt =====
-- FragmentedUdp.cpp: `receiveMessage` and a fragment without the bytes that its header announces.
use post_quantum_uav_uav.Prelude.{
  ℕ, ◌^◌, ◌≤◌, ◌<◌, ◌≡◌, refl, ap, ◌∙◌, Bool, true, false, some, List, [], ◌∷◌, ◌++◌, drop, arith,
  ltb-false, ==_refl, write_at_nothing, get_or-replicate,
}
use post_quantum_uav_uav.Codec.{put_u16, put_u32, get_u16, get_u32}
use post_quantum_uav_uav.Codec.Integers.{get_u16-put_u16, get_u32-put_u32}
use post_quantum_uav_uav.Transport.Fragment.{
  Fragment, Arrival, datagram, fragment_magic, parse_fragment, read_one_datagram, is_acceptable,
}
use post_quantum_uav_uav.Transport.Receive.{
  Request, activate, store, handle_fragment, is_wanted, receive_loop, receive_message,
  ReceivedPacket,
}
use post_quantum_uav_uav.Transport.Parse.{accepted}

-- The only fragment of a message of `total` bytes, with none of them.
abbrev pub hollow_bytes : ℕ → ℕ → ℕ → List ℕ
hollow_bytes type session total =
    put_u16 fragment_magic
    ++ (1 ∷ type ∷ (put_u32 session ++ (put_u16 total ++ (0 ∷ 1 ∷ put_u16 0))))

abbrev hollow_fragment : ℕ → ℕ → ℕ → ℕ → ℕ → Fragment
hollow_fragment type session total ip port = record {
  type = type;
  session = session;
  total_length = total;
  fragment_index = 0;
  fragment_count = 1;
  payload_length = 0;
  source_ip = ip;
  source_port = port;
  datagram_bytes = 14;
  payload = [];
}

abbrev pub hollow_packet : ℕ → ℕ → ℕ → ℕ → ℕ → ReceivedPacket
hollow_packet type session total ip port = record {
  type = type;
  session = session;
  length = total;
  source_ip = ip;
  source_port = port;
  framed_bytes = 14;
}

module _ (type session total ip port : ℕ) (hs : session < 2 ^ 32) (ht : total ≤ 3378) where
  parse_hollow :
      parse_fragment (hollow_bytes type session total) ip port
      ≡ hollow_fragment type session total ip port
  unfolding put_u16 put_u32
  parse_hollow =
      let rest = put_u16 total ++ (0 ∷ 1 ∷ put_u16 0) in
      let session_read : get_u32 (put_u32 session ++ rest) ≡ session =
        get_u32-put_u32 session rest hs in
      let total_read : get_u16 rest ≡ total =
        get_u16-put_u16 total (0 ∷ 1 ∷ put_u16 0) (omega arith) in
      let payload_read : get_u16 (put_u16 0) ≡ 0 = get_u16-put_u16 0 [] (omega arith) in
      λ k. record (hollow_fragment type session total ip port) {
        session = session_read k;
        total_length = total_read k;
        payload_length = payload_read k;
      }

  read_hollow :
      read_one_datagram (datagram (hollow_bytes type session total) ip port)
      ≡ some (hollow_fragment type session total ip port)
  unfolding put_u16 put_u32
  read_hollow =
      accepted (hollow_bytes type session total) ip port (omega arith) (omega arith)
        (get_u16-put_u16 fragment_magic (drop 2 (hollow_bytes type session total)) (omega arith))
        refl (ap is_acceptable parse_hollow ∙ acceptable)
      ∙ ap some parse_hollow
    where
      acceptable : is_acceptable (hollow_fragment type session total ip port) ≡ true
      acceptable = rw (ltb-false 3378 total ht) refl

-- A single datagram that announces up to 3378 bytes and carries none is a complete message to
-- `receiveMessage`, where its type and session are asked for: the packet has the announced length, and
-- the buffer still holds what it held before.
pub receive_message_hollow :
    (type session total ip port : ℕ) (request : Request) (output : List ℕ) (rest : List Arrival)
    → session < 2 ^ 32
    → total ≤ 3378
    → total ≤ request.output_capacity
    → is_wanted request type session ≡ true
    → receive_message request
        (some output)
        (datagram (hollow_bytes type session total) ip port ∷ rest)
      ≡ (some (hollow_packet type session total ip port), some output)
unfolding receive_message receive_loop handle_fragment activate store
receive_message_hollow type session total ip port request output rest hs ht room wanted =
    rw
      (
        read_hollow type session total ip port hs ht,
        wanted,
        ltb-false request.output_capacity total room,
        ==_refl type,
        ==_refl session,
        ==_refl total,
        ==_refl ip,
        ==_refl port,
        write_at_nothing output,
        ltb-false total 0 (omega arith),
        get_or-replicate {A = Bool} 8 0 false,
      )
      refl

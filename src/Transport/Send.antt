-- ===== src/Transport/Send.antt =====
-- `FragmentedUdp::sendMessage`. The UDP stack is a parameter: what it answers for each fragment.
use post_quantum_uav_uav.Prelude.{
  ℕ, zero, suc, ◌+◌, ◌-◌, ◌/◌, ◌%◌, ◌^◌, Bool, true, false, ◌||◌, none, some, List, [], ◌∷◌, ltb,
  ◌==◌, if◌then◌else◌, length,
}
use post_quantum_uav_uav.Crypto.{Pointer}
use post_quantum_uav_uav.Transport.Fragment.{
  fragment_bytes, payload_length_of, fragment_header_bytes, max_fragments,
  max_protocol_message_bytes,
}

-- What `beginPacket`, `write` and `endPacket` answer for a fragment.
pub data UdpAnswer : Type 0 where
  sent begin_failed write_short end_failed : UdpAnswer

-- The datagrams that were handed to the stack in full, `framedBytes`, and the value returned.
pub record Sending : Type 0 where
  pub datagrams : List (List ℕ)
  pub framed_bytes : ℕ
  pub ok : Bool

abbrev refused : Sending
refused = record { datagrams = []; framed_bytes = 0; ok = false }

module _ (udp : ℕ → UdpAnswer) (type session : ℕ) (message : List ℕ)
    (length fragment_count : ℕ) where
  -- `for (fragmentIndex = 0; fragmentIndex < fragmentCount; ++fragmentIndex)`, `rounds` to go.
  unfoldable pub send_loop : ℕ → ℕ → ℕ → Sending
  send_loop zero fragment_index framed = record { datagrams = []; framed_bytes = framed; ok = true }
  send_loop (suc rounds) fragment_index framed =
      let datagram_length = fragment_header_bytes + payload_length_of length fragment_index in
      elim (udp fragment_index) [
        | begin_failed ↦ record { datagrams = []; framed_bytes = framed; ok = false }
        | write_short ↦ record { datagrams = []; framed_bytes = framed; ok = false }
        | end_failed ↦ record { datagrams = []; framed_bytes = framed; ok = false }
        | sent ↦
            (let rest =
                send_loop rounds (fragment_index + 1) ((framed + datagram_length) % 2 ^ 32) in
              record rest {
                datagrams =
                    fragment_bytes type session message length fragment_count fragment_index
                    ∷ rest.datagrams;
              })
      ]

abbrev pub fragment_count_of : ℕ → ℕ
fragment_count_of length = (length + 1000 - 1) / 1000 % 256

unfoldable pub send_message : (ℕ → UdpAnswer) → ℕ → ℕ → Pointer → ℕ → Sending
send_message udp type session none length = refused
send_message udp type session (some message) length =
    let fragment_count = fragment_count_of length in
    if (length == 0) || ltb max_protocol_message_bytes length
    then refused
    else if (fragment_count == 0) || ltb max_fragments fragment_count
    then refused
    else send_loop udp type session message length fragment_count fragment_count 0 0

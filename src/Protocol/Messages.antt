-- ===== src/Protocol/Messages.antt =====
-- ProposedUavProtocol.cpp: `sendProtocolMessage` and `receiveProtocolMessage`, with the byte counts of
-- `LocalMetrics`.
use post_quantum_uav_uav.Prelude.{
  ℕ, ◌+◌, ◌*◌, ◌%◌, ◌^◌, ◌<◌, ◌≡◌, refl, Bool, true, false, not, ◌&&◌, none, some, Option, List,
  length, drop, ◌++◌, ◌==◌, ==_refl, ==-false, if◌then◌else◌, arith,
}
use mathlib.Core.List.{Mem}
use post_quantum_uav_uav.Crypto.{Pointer}
use post_quantum_uav_uav.Transport.Fragment.{Arrival}
use post_quantum_uav_uav.Transport.Send.{UdpAnswer, sent, send_message}
use post_quantum_uav_uav.Transport.Receive.{Request, ReceivedPacket, receive_message}
use post_quantum_uav_uav.Transport.Parse.{IsSendable}
use post_quantum_uav_uav.Transport.Sent.{send_message_lem}
use post_quantum_uav_uav.Transport.Progress.{Fits, IsTraffic, fragments, sent_datagram}
use post_quantum_uav_uav.Transport.Deliver.{receive_message-delivers, whole_packet}

-- The byte counts of `LocalMetrics`.
pub record Traffic : Type 0 where
  pub app_tx_bytes : ℕ
  pub app_rx_bytes : ℕ
  pub framed_tx_bytes : ℕ
  pub framed_rx_bytes : ℕ

-- What is sent, whether the call returns true, and the counts it leaves.
unfoldable pub send_protocol_message :
    (ℕ → UdpAnswer) → ℕ → ℕ → Pointer → ℕ → Bool → Traffic → Bool × Traffic
send_protocol_message udp type session bytes length count_as_protocol metrics =
    let sending = send_message udp type session bytes length in
    if not sending.ok then (false, metrics) else (
      true,
      if count_as_protocol
          then record metrics {
            app_tx_bytes = (metrics.app_tx_bytes + length) % 2 ^ 32;
            framed_tx_bytes = (metrics.framed_tx_bytes + sending.framed_bytes) % 2 ^ 32;
          }
          else metrics,
    )

-- What `receiveProtocolMessage` makes of what the transport gave.
abbrev pub counted : ℕ → Bool → Traffic → Option ReceivedPacket → Option ReceivedPacket × Traffic
counted expected_length count_as_protocol metrics none = (none, metrics)
counted expected_length count_as_protocol metrics (some packet) =
    if not (expected_length == 0) && not (packet.length == expected_length)
    then (none, metrics)
    else (
      some packet,
      if count_as_protocol
          then record metrics {
            app_rx_bytes = (metrics.app_rx_bytes + packet.length) % 2 ^ 32;
            framed_rx_bytes = (metrics.framed_rx_bytes + packet.framed_bytes) % 2 ^ 32;
          }
          else metrics,
    )

-- The packet where the call returns true, the caller's buffer, and the counts.
unfoldable pub receive_protocol_message :
    Request
    → Pointer
    → ℕ
    → Bool
    → List Arrival
    → Traffic
    → Option ReceivedPacket × Pointer × Traffic
receive_protocol_message request bytes expected_length count_as_protocol arrivals metrics =
    let received = receive_message request bytes arrivals in
    let (packet, next) = counted expected_length count_as_protocol metrics received.0 in
    (packet, received.1, next)

module _ (type session : ℕ) (message : List ℕ) (ip port : ℕ)
    (sendable : IsSendable type session message) (request : Request) (output : List ℕ)
    (fits : Fits request type session message output) (arrivals : List Arrival)
    (traffic : IsTraffic type session message ip port request arrivals)
    (all_in : (i : ℕ)
      → i < fragments message
      → Mem (sent_datagram type session message ip port i) arrivals)
    (sender receiver : Traffic) where
  framed : fragments message * 14 ≡ 14 * fragments message
  framed = omega arith

  some_bytes : (length message == 0) ≡ false
  some_bytes = ==-false (length message) sendable.not_empty

  -- A message of 1 to 3378 bytes of the expected length that one node sends, with every datagram
  -- accepted by its stack, and whose datagrams reach the other, in any order and with repetitions,
  -- among others that it does not ask for, is handed over whole, and the receiver counts the same
  -- application bytes and the same framed bytes as received as the sender counts as sent.
  pub receive_protocol_message-send_protocol_message :
      (send_protocol_message (λ _. sent) type session (some message) (length message) true sender
        ≡ (
          true,
          record sender {
            app_tx_bytes = (sender.app_tx_bytes + length message) % 2 ^ 32;
            framed_tx_bytes =
                (sender.framed_tx_bytes + (length message + 14 * fragments message)) % 2 ^ 32;
          },
        ))
      × (receive_protocol_message request (some output) (length message) true arrivals receiver ≡ (
        some (whole_packet type session message ip port sendable request output fits),
        some (message ++ drop (length message) output),
        record receiver {
          app_rx_bytes = (receiver.app_rx_bytes + length message) % 2 ^ 32;
          framed_rx_bytes =
              (receiver.framed_rx_bytes + (length message + 14 * fragments message)) % 2 ^ 32;
        },
      ))
  unfolding send_protocol_message receive_protocol_message
  receive_protocol_message-send_protocol_message = (
    rw (send_message_lem type session message sendable, framed) refl,
    rw
        (
          receive_message-delivers type session message ip port sendable request output fits
              arrivals traffic all_in,
          ==_refl (length message),
          some_bytes,
        )
        refl,
  )

-- ===== src/Tests/Transport.antt =====
-- Messages over UDP at concrete inputs.
use post_quantum_uav_uav.Prelude.{
  ◌%◌, ◌^◌, ℕ, zero, suc, ◌+◌, ◌*◌, ◌<◌, ◌≡◌, refl, inl, inr, true, some, List, [], ◌∷◌, ◌++◌,
  length, drop, replicate, length-replicate, arith,
}
use mathlib.Core.List.{Mem, mem-cons_self, mem-cons_of_mem}
use post_quantum_uav_uav.Protocol.Messages.{
  Traffic, send_protocol_message, receive_protocol_message,
  receive_protocol_message-send_protocol_message,
}
use post_quantum_uav_uav.Transport.Fragment.{Arrival, quiet, datagram, read_one_datagram}
use post_quantum_uav_uav.Transport.Send.{send_message, sent}
use post_quantum_uav_uav.Transport.Sent.{send_message-sent, fragments_of}
use post_quantum_uav_uav.Transport.Receive.{Request, receive_message}
use post_quantum_uav_uav.Transport.Parse.{IsSendable}
use post_quantum_uav_uav.Transport.Progress.{fragments, sent_datagram, IsTraffic, IsNoise, Fits}
use post_quantum_uav_uav.Transport.Deliver.{receive_message-delivers, whole_packet}
use post_quantum_uav_uav.Transport.Bounds.{receive_message-safe, IsFit}
use post_quantum_uav_uav.Transport.Hollow.{receive_message_hollow, hollow_bytes, hollow_packet}

abbrev message : List ℕ
message = replicate 1500 7

size : length message ≡ 1500
size = length-replicate 1500 7

sendable : IsSendable 12 77 message
sendable = record {
  type_fits = omega arith;
  session_fits = omega arith;
  not_empty = omega (arith, size);
  fits = omega (arith, size);
}

abbrev request : Request
request = record { expected_type = 12; expected_session = 0; output_capacity = 1600 }

abbrev buffer : List ℕ
buffer = replicate 2000 0

fits : Fits request 12 77 message buffer
fits = record {
  expected = refl;
  room = omega (arith, size);
  capacity = omega (arith, length-replicate {A = ℕ} 2000 0);
}

abbrev part : ℕ → Arrival
part i = sent_datagram 12 77 message 5 4242 i

-- The second fragment twice, silence, and the first fragment.
abbrev arrivals : List Arrival
arrivals = part 1 ∷ quiet ∷ part 1 ∷ part 0 ∷ []

nothing : IsNoise request quiet
unfolding read_one_datagram
nothing f e = cc

traffic : IsTraffic 12 77 message 5 4242 request arrivals
traffic = (
  inr (1, omega (arith, size), refl),
  (inl nothing, (inr (1, omega (arith, size), refl), (inr (0, omega (arith, size), refl), tt))),
)

all_in : (i : ℕ) → i < fragments message → Mem (part i) arrivals
all_in zero h = mem-cons_of_mem _ (mem-cons_of_mem _ (mem-cons_of_mem _ mem-cons_self))
all_in (suc zero) h = mem-cons_self
all_in (suc (suc i)) h = absurd (omega (arith, size))

receive_message-delivers_example : receive_message request (some buffer) arrivals ≡ (
  some (whole_packet 12 77 message 5 4242 sendable request buffer fits),
  some (message ++ drop (length message) buffer),
)
receive_message-delivers_example =
    receive_message-delivers 12 77 message 5 4242 sendable request buffer fits arrivals traffic
      all_in

send_message-sent_example :
    send_message (λ _. sent) 12 77 (some message) (length message) ≡ record {
      datagrams = fragments_of 12 77 message 2 2 0;
      framed_bytes = length message + 2 * 14;
      ok = true;
    }
send_message-sent_example =
    send_message-sent 12 77 message 2 sendable (omega (arith, size)) (omega (arith, size))

receive_message-safe_example :
    (after : List ℕ) × ((receive_message request (some buffer) arrivals).1 ≡ some after)
    × (length after ≡ length buffer)
    × (drop 1600 after ≡ drop 1600 buffer)
    × IsFit request (receive_message request (some buffer) arrivals).0
receive_message-safe_example =
    receive_message-safe request buffer arrivals (omega (arith, length-replicate {A = ℕ} 2000 0))

receive_message_hollow_example :
    receive_message request (some buffer) (datagram (hollow_bytes 12 77 1500) 5 4242 ∷ [])
    ≡ (some (hollow_packet 12 77 1500 5 4242), some buffer)
receive_message_hollow_example =
    receive_message_hollow 12 77 1500 5 4242 request buffer [] (omega arith) (omega arith)
      (omega arith) refl

abbrev nothing_counted : Traffic
nothing_counted = record {
  app_tx_bytes = 0;
  app_rx_bytes = 0;
  framed_tx_bytes = 0;
  framed_rx_bytes = 0;
}

receive_protocol_message-send_protocol_message_example :
    (send_protocol_message (λ _. sent) 12 77 (some message) (length message) true nothing_counted
      ≡ (
        true,
        record nothing_counted {
          app_tx_bytes = (0 + length message) % 2 ^ 32;
          framed_tx_bytes = (0 + (length message + 14 * fragments message)) % 2 ^ 32;
        },
      ))
    × (receive_protocol_message request (some buffer) (length message) true arrivals nothing_counted
        ≡ (
          some (whole_packet 12 77 message 5 4242 sendable request buffer fits),
          some (message ++ drop (length message) buffer),
          record nothing_counted {
            app_rx_bytes = (0 + length message) % 2 ^ 32;
            framed_rx_bytes = (0 + (length message + 14 * fragments message)) % 2 ^ 32;
          },
        ))
receive_protocol_message-send_protocol_message_example =
    receive_protocol_message-send_protocol_message 12 77 message 5 4242 sendable request buffer fits
      arrivals traffic all_in nothing_counted nothing_counted

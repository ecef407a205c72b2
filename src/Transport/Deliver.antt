-- ===== src/Transport/Deliver.antt =====
-- FragmentedUdp.cpp: `receiveMessage` on the datagrams of `sendMessage`, whatever their order.
use post_quantum_uav_uav.Prelude.{
  ℕ, ◌+◌, ◌*◌, ◌/◌, ◌<◌, ◌≡◌, ◌≢◌, refl, sym, ap, ◌∙◌, Bool, true, false, Option, none, some, List,
  [], ◌∷◌, ◌++◌, ◌==◌, if◌then◌else◌, length, drop, get_or, set, arith, inl, inr, Bool-cases, subst,
  length-set, length-replicate, get_or-set_self, get_or-set_ne, ==_iff,
}
use native.Mathlib.Decide.{ℕ_discrete}
use mathlib.Core.List.{Mem, mem_of_ne_of_mem, not-mem-nil}
use post_quantum_uav_uav.Transport.Fragment.{Fragment, Arrival, read_one_datagram}
use post_quantum_uav_uav.Transport.Receive.{
  Assembly, Request, start, round, receive_loop, receive_message, packet_of, ReceivedPacket,
}
use post_quantum_uav_uav.Transport.Parse.{IsSendable, sent_fragment, read_one_datagram-sent_bytes}
use post_quantum_uav_uav.Transport.Assemble.{
  mixed_all, completed_of, completed_of-le, completed_of_all, framed_of, framed_of_all,
}
use post_quantum_uav_uav.Transport.Progress.{
  fragments, sent_datagram, IsTraffic, IsNoise, Fits, progress, round-progress, round-start,
  round_noise, none_in,
}

loop_noise :
    (request : Request) (a : Assembly) (arrival : Arrival) (rest : List Arrival)
    → IsNoise request arrival
    → receive_loop request a (arrival ∷ rest) ≡ receive_loop request a rest
unfolding receive_loop
loop_noise request a arrival rest noise = rw (round_noise request a arrival noise) refl

loop_through :
    (request : Request) (a next : Assembly) (arrival : Arrival) (rest : List Arrival)
    → round request a arrival ≡ (next, true)
    → receive_loop request a (arrival ∷ rest) ≡ (
        if next.completed == next.active_count
        then (some (packet_of next), next)
        else receive_loop request next rest)
unfolding receive_loop
loop_through request a next arrival rest e = rw e refl

module _ (type session : ℕ) (message : List ℕ) (ip port : ℕ)
    (sendable : IsSendable type session message) (request : Request) (output : List ℕ)
    (fits : Fits request type session message output) where
  -- The packet that a complete message gives.
  abbrev pub whole_packet : ReceivedPacket
  whole_packet = record {
    type = type;
    session = session;
    length = length message;
    source_ip = ip;
    source_port = port;
    framed_bytes = length message + 14 * fragments message;
  }

  abbrev Delivered : Option ReceivedPacket × Assembly → Type 0
  Delivered result =
      (result.0 ≡ some whole_packet) × (result.1.output ≡ message ++ drop (length message) output)

  abbrev sent_at : ℕ → Arrival
  sent_at i = sent_datagram type session message ip port i

  abbrev state : List Bool → Assembly
  state got = progress type session message ip port sendable request output fits got

  -- Two fragments have different datagrams, and no datagram of the message is noise.
  sent_at-injective :
      (i j : ℕ) → i < fragments message → j < fragments message → sent_at i ≡ sent_at j → i ≡ j
  sent_at-injective i j hi hj e =
      ap (λ (o : Option Fragment). elim o [ none ↦ 0 | some f ↦ f.fragment_index ])
        (sym (read_one_datagram-sent_bytes type session message sendable i ip port hi)
          ∙ ap read_one_datagram e
          ∙ read_one_datagram-sent_bytes type session message sendable j ip port hj)

  not_noise :
      (i : ℕ) (arrival : Arrival)
      → i < fragments message
      → IsNoise request arrival
      → sent_at i ≢ arrival
  not_noise i arrival hi noise e = cc (
    noise (sent_fragment type session message ip port i) (
        ap read_one_datagram (sym e)
        ∙ read_one_datagram-sent_bytes type session message sendable i ip port hi),
    fits.expected,
  )

  -- What is not in yet is still to come.
  abbrev Awaits : List Bool → List Arrival → Type 0
  Awaits got arrivals =
      (i : ℕ) → i < fragments message → get_or got i false ≡ false → Mem (sent_at i) arrivals

  complete :
      (got : List Bool)
      → length got ≡ fragments message
      → completed_of got ≡ fragments message
      → Delivered (some (packet_of (state got)), state got)
  complete got hg hc =
      let covers : length got ≡ (length message + 999) / 1000 = omega (arith, sendable.fits) in
      let framed : framed_of got message ≡ length message + 14 * fragments message =
        omega (arith, framed_of_all got message covers (omega arith)) in
      (
        λ k. some (record whole_packet { framed_bytes = framed k }),
        mixed_all got message output covers (omega arith),
      )

  Awaits-set :
      (got : List Bool) (i : ℕ) (arrivals : List Arrival)
      → length got ≡ fragments message
      → i < fragments message
      → Awaits got (sent_at i ∷ arrivals)
      → Awaits (set got i true) arrivals
  Awaits-set got i arrivals hg hi awaits j hj new = elim (ℕ_discrete j i) [
    | yes same ↦ cc (
      get_or-set_self got i true false (omega arith),
      subst (λ k. get_or (set got i true) k false ≡ false) same new,
    )
    | no other ↦
        mem_of_ne_of_mem (λ e. other (sent_at-injective j i hj hi e))
          (awaits j hj (sym (get_or-set_ne got i j true false (λ e. other (sym e))) ∙ new))
  ]

  -- After a fragment has gone through: the message is complete, or the loop goes on.
  deliver_next :
      (got : List Bool) (i : ℕ) (arrivals : List Arrival)
      → length got ≡ fragments message
      → (completed_of (set got i true) < fragments message
          → Delivered (receive_loop request (state (set got i true)) arrivals))
      → Delivered (
          if completed_of (set got i true) == fragments message
          then (some (packet_of (state (set got i true))), state (set got i true))
          else receive_loop request (state (set got i true)) arrivals)
  deliver_next got i arrivals hg go_on =
      elim (Bool-cases (completed_of (set got i true) == fragments message)) [
        | inl all ↦
            rw all (
              complete (set got i true) (omega (arith, length-set got i true)) ((==_iff _ _).0 all))
        | inr some_left ↦ rw some_left (
            go_on (
              omega
                (arith, less some_left, length-set got i true, completed_of-le (set got i true))))
      ]
    where
      less :
          (completed_of (set got i true) == fragments message) ≡ false
          → completed_of (set got i true) ≢ fragments message
      less h e = cc (h, (==_iff _ _).1 e)

  deliver :
      (arrivals : List Arrival) (got : List Bool)
      → length got ≡ fragments message
      → completed_of got < fragments message
      → IsTraffic type session message ip port request arrivals
      → Awaits got arrivals
      → Delivered (receive_loop request (state got) arrivals)
  deliver [] got hg hc traffic awaits = absurd (omega (arith, completed_of_all got all_in))
    where
      all_in : (i : ℕ) → i < length got → get_or got i false ≡ true
      all_in i hi = elim (Bool-cases (get_or got i false)) [
        | inl old ↦ old
        | inr new ↦ absurd (not-mem-nil (awaits i (omega arith) new))
      ]
  deliver (arrival ∷ arrivals) got hg hc (inl noise, traffic) awaits =
      subst Delivered (sym (loop_noise request (state got) arrival arrivals noise)) (
        deliver arrivals got hg hc traffic
          (λ i hi new. mem_of_ne_of_mem (not_noise i arrival hi noise) (awaits i hi new)))
  deliver (arrival ∷ arrivals) got hg hc (inr (i, hi, e), traffic) awaits =
      subst (λ a. Delivered (receive_loop request (state got) (a ∷ arrivals))) (sym e)
        (subst Delivered
          (sym (
            loop_through request (state got) (state (set got i true)) (sent_at i) arrivals (
              round-progress type session message ip port sendable request output fits got i hg
                hi)))
          (deliver_next got i arrivals hg (λ less.
            deliver arrivals (set got i true) (omega (arith, length-set got i true)) less traffic
              (Awaits-set got i arrivals hg hi (subst (λ a. Awaits got (a ∷ arrivals)) e awaits)))))

  deliver_first :
      (arrivals : List Arrival)
      → IsTraffic type session message ip port request arrivals
      → ((i : ℕ) → i < fragments message → Mem (sent_at i) arrivals)
      → Delivered (receive_loop request (start output) arrivals)
  deliver_first [] traffic awaits =
      absurd (not-mem-nil (awaits 0 (omega (arith, sendable.not_empty, sendable.fits))))
  deliver_first (arrival ∷ arrivals) (inl noise, traffic) awaits =
      subst Delivered (sym (loop_noise request (start output) arrival arrivals noise)) (
        deliver_first arrivals traffic
          (λ i hi. mem_of_ne_of_mem (not_noise i arrival hi noise) (awaits i hi)))
  deliver_first (arrival ∷ arrivals) (inr (i, hi, e), traffic) awaits =
      let got = none_in type session message ip port sendable request output fits in
      let hg : length got ≡ fragments message = length-replicate (fragments message) false in
      subst (λ a. Delivered (receive_loop request (start output) (a ∷ arrivals))) (sym e)
        (subst Delivered
          (sym (
            loop_through request (start output) (state (set got i true)) (sent_at i) arrivals
              (round-start type session message ip port sendable request output fits i hi)))
          (deliver_next got i arrivals hg (λ less.
            deliver arrivals (set got i true) (omega (arith, length-set got i true)) less traffic (
              Awaits-set got i arrivals hg hi
                (subst (λ a. Awaits got (a ∷ arrivals)) e (λ j hj new. awaits j hj))))))

-- A message of 1 to 3378 bytes whose datagrams have all come from one address, in any order and with
-- repetitions, among datagrams that the caller does not ask for, is handed over whole to a caller with
-- room for it: the packet has its length and its sender, the buffer begins with its bytes, and what
-- stood behind them is left as it was.
pub receive_message-delivers :
    (type session : ℕ) (message : List ℕ) (ip port : ℕ) (sendable : IsSendable type session message)
    (request : Request) (output : List ℕ) (fits : Fits request type session message output)
    (arrivals : List Arrival)
    → IsTraffic type session message ip port request arrivals
    → ((i : ℕ)
        → i < fragments message
        → Mem (sent_datagram type session message ip port i) arrivals)
    → receive_message request (some output) arrivals ≡ (
      some (whole_packet type session message ip port sendable request output fits),
      some (message ++ drop (length message) output),
    )
unfolding receive_message
receive_message-delivers type session message ip port sendable request output fits arrivals traffic
      awaits =
    let (packet, bytes) =
      deliver_first type session message ip port sendable request output fits arrivals traffic
        awaits in
    λ k. (packet k, some (bytes k))

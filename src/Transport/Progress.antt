-- ===== src/Transport/Progress.antt =====
-- FragmentedUdp.cpp: one round of `receiveMessage` on a datagram of `sendMessage`.
use post_quantum_uav_uav.Prelude.{
  ℕ, ◌+◌, ◌-◌, ◌*◌, ◌%◌, ◌^◌, ◌≤◌, ◌<◌, ◌≡◌, refl, sym, ap, ◌∙◌, Bool, true, false, Option, none,
  some, List, ◌++◌, length, All, replicate, get_or, set, write_at, arith, inl, inr, ◌⊎◌, Bool-cases,
  All-replicate, get_or-append_lt, set-append_lt, set_same, take, slice, take-all, length-slice,
  length-replicate, replicate-append, ltb-false, ==_refl,
}
use post_quantum_uav_uav.Transport.Fragment.{
  Fragment, Arrival, datagram, payload_length_of, read_one_datagram,
}
use post_quantum_uav_uav.Transport.Receive.{
  Assembly, Request, start, activate, store, belongs, round, handle, handle_fragment, is_expected,
}
use post_quantum_uav_uav.Transport.Send.{fragment_count_of}
use post_quantum_uav_uav.Transport.Parse.{
  IsSendable, sent_fragment, sent_bytes, payload_bounds, read_one_datagram-sent_bytes,
}
use post_quantum_uav_uav.Transport.Assemble.{
  Covers, mixed, mixed-set, mixed_none, completed_of, completed_of-set, completed_of-le, framed_of,
  framed_of-set, framed_of-le, completed_of-false, framed_of_none,
}

-- A datagram that `readOneDatagram` drops, or that has another type or session than the caller asks
-- for.
abbrev pub IsNoise : Request → Arrival → Type 0
IsNoise request arrival =
    (f : Fragment) → read_one_datagram arrival ≡ some f → is_expected request f ≡ false

-- The caller asks for this message and has room for it.
pub record Fits (request : Request) (type session : ℕ) (message output : List ℕ) : Type 0 where
  pub expected : is_expected request (sent_fragment type session message 0 0 0) ≡ true
  pub room : length message ≤ request.output_capacity
  pub capacity : request.output_capacity ≤ length output

abbrev pub fragments : List ℕ → ℕ
fragments message = fragment_count_of (length message)

abbrev pub sent_datagram : ℕ → ℕ → List ℕ → ℕ → ℕ → ℕ → Arrival
sent_datagram type session message ip port i = datagram (sent_bytes type session message i) ip port

-- What the socket may bring: noise, and the message's datagrams in any order and number.
abbrev pub IsTraffic : ℕ → ℕ → List ℕ → ℕ → ℕ → Request → List Arrival → Type 0
IsTraffic type session message ip port request = All (λ arrival.
    IsNoise request arrival
    ⊎ ((i : ℕ) × (i < fragments message)
        × (arrival ≡ sent_datagram type session message ip port i)))

module _ (type session : ℕ) (message : List ℕ) (ip port : ℕ)
    (sendable : IsSendable type session message) (request : Request) (output : List ℕ)
    (fits : Fits request type session message output) where
  -- The state once the fragments `got` are in.
  abbrev pub progress : List Bool → Assembly
  progress got = record {
    received_fragments = got ++ replicate (8 - fragments message) false;
    active_type = type;
    active_session = session;
    active_length = length message;
    active_count = fragments message;
    completed = completed_of got;
    active = true;
    framed_bytes = framed_of got message;
    active_ip = ip;
    active_port = port;
    output = mixed got message output;
  }

  belongs-progress :
      (got : List Bool) (i : ℕ)
      → i < fragments message
      → belongs (progress got) (sent_fragment type session message ip port i) ≡ true
  belongs-progress got i h =
      let (lo, hi, within) = payload_bounds type session message sendable i h in
      rw
        (
          ==_refl type,
          ==_refl session,
          ==_refl (length message),
          ==_refl (fragments message),
          ==_refl ip,
          ==_refl port,
          ltb-false (length message) (i * 1000 + payload_length_of (length message) i) within,
        )
        refl

  store-progress :
      (got : List Bool) (i : ℕ)
      → length got ≡ fragments message
      → i < fragments message
      → store (progress got) (sent_fragment type session message ip port i)
        ≡ progress (set got i true)
  unfolding store
  store-progress got i hg hi =
      rw (get_or-append_lt got (replicate (8 - fragments message) false) i false (omega arith))
        (elim (Bool-cases (get_or got i false)) [
          | inl old ↦ rw old (ap progress (sym (set_same got i true false (omega arith) old)))
          | inr new ↦ rw new (stored new)
        ])
    where
      here : ℕ
      here = payload_length_of (length message) i

      bytes : take here (slice (i * 1000) here message) ≡ slice (i * 1000) here message
      bytes =
          let (lo, hi, within) = payload_bounds type session message sendable i hi in
          take-all here _ (omega (arith, length-slice (i * 1000) here message within))

      covers : Covers got message
      covers = omega (arith, sendable.fits)

      stored :
          get_or got i false ≡ false
          → record (progress got) {
            received_fragments = set (got ++ replicate (8 - fragments message) false) i true;
            completed = (completed_of got + 1) % 256;
            framed_bytes = (framed_of got message + (14 + here)) % 2 ^ 32;
            output =
                write_at
                  (i * 1000)
                  (take here (slice (i * 1000) here message))
                  (mixed got message output);
          }
            ≡ progress (set got i true)
      stored new =
          let flags : set (got ++ replicate (8 - fragments message) false) i true
              ≡ set got i true ++ replicate (8 - fragments message) false =
            set-append_lt got (replicate (8 - fragments message) false) i true (omega arith) in
          let count : (completed_of got + 1) % 256 ≡ completed_of (set got i true) =
            omega (
              arith,
              completed_of-set got i (omega arith) new,
              completed_of-le got,
              sendable.fits,
            ) in
          let framed : (framed_of got message + (14 + here)) % 2 ^ 32
              ≡ framed_of (set got i true) message =
            omega (
              arith,
              framed_of-set got message i covers (omega arith) new,
              framed_of-le got message,
              payload_bounds type session message sendable i hi,
              sendable.fits,
            ) in
          let bytes_in : write_at (i * 1000) (take here (slice (i * 1000) here message))
                (mixed got message output)
              ≡ mixed (set got i true) message output =
            ap (λ b. write_at (i * 1000) b (mixed got message output)) bytes
            ∙ mixed-set got message output i covers (omega (arith, fits.room, fits.capacity))
                (omega arith) in
          λ k. record (progress got) {
            received_fragments = flags k;
            completed = count k;
            framed_bytes = framed k;
            output = bytes_in k;
          }

  -- A fragment of the message in progress goes through to the end of the loop's body.
  pub round-progress :
      (got : List Bool) (i : ℕ)
      → length got ≡ fragments message
      → i < fragments message
      → round request (progress got) (sent_datagram type session message ip port i)
        ≡ (progress (set got i true), true)
  unfolding handle_fragment activate
  round-progress got i hg hi =
      ap (handle request (progress got))
        (read_one_datagram-sent_bytes type session message sendable i ip port hi)
      ∙ rw (fits.expected, belongs-progress got i hi, store-progress got i hg hi) refl

  abbrev pub none_in : List Bool
  none_in = replicate (fragments message) false

  completed_of-none_in : completed_of none_in ≡ 0
  completed_of-none_in =
      completed_of-false none_in
        (All-replicate (λ here. here ≡ false) (fragments message) false refl)

  -- The first fragment fixes the message.
  activate-start :
      (i : ℕ)
      → activate (start output) (sent_fragment type session message ip port i) ≡ progress none_in
  unfolding activate
  activate-start i =
      let flags : replicate 8 false ≡ none_in ++ replicate (8 - fragments message) false =
        ap (λ (n : ℕ). replicate n false) (omega (arith, sendable.fits))
        ∙ replicate-append (fragments message) (8 - fragments message) false in
      let count : 0 ≡ completed_of none_in = sym completed_of-none_in in
      let framed : 0 ≡ framed_of none_in message =
        sym (framed_of_none none_in message completed_of-none_in) in
      let bytes : output ≡ mixed none_in message output =
        sym (mixed_none none_in message output completed_of-none_in) in
      λ k. record (progress none_in) {
        received_fragments = flags k;
        completed = count k;
        framed_bytes = framed k;
        output = bytes k;
      }

  pub round-start :
      (i : ℕ)
      → i < fragments message
      → round request (start output) (sent_datagram type session message ip port i)
        ≡ (progress (set none_in i true), true)
  unfolding handle_fragment
  round-start i hi =
      ap (handle request (start output))
        (read_one_datagram-sent_bytes type session message sendable i ip port hi)
      ∙ rw
          (
            fits.expected,
            ltb-false request.output_capacity (length message) fits.room,
            activate-start i,
            belongs-progress none_in i hi,
            store-progress none_in i (length-replicate (fragments message) false) hi,
          )
          refl

-- Noise changes nothing.
pub round_noise :
    (request : Request) (a : Assembly) (arrival : Arrival)
    → IsNoise request arrival
    → round request a arrival ≡ (a, false)
unfolding handle_fragment
round_noise request a arrival noise = go (read_one_datagram arrival) noise
  where
    go :
        (read : Option Fragment)
        → ((f : Fragment) → read ≡ some f → is_expected request f ≡ false)
        → handle request a read ≡ (a, false)
    go none h = refl
    go (some f) h = rw (h f refl) refl

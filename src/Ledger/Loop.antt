-- ===== src/Ledger/Loop.antt =====
-- GcsLedgerClient.cpp: from a single arrival to all attempts of `sendAndReceive`.
use post_quantum_uav_uav.Prelude.{
  ℕ, zero, suc, ◌+◌, ◌≡◌, refl, subst, inl, inr, Option, some, none, List, [], ◌∷◌, All,
}
use post_quantum_uav_uav.Crypto.{WolfCrypt}
use post_quantum_uav_uav.Transport.Fragment.{Arrival}
use post_quantum_uav_uav.Transport.Send.{UdpAnswer, sent, begin_failed, write_short, end_failed}
use post_quantum_uav_uav.Ledger.Client.{
  Client, Awaited, Attempt, Verdict, skipped, not_found, taken, handle_arrival, wait_loop,
  attempt_loop, send_and_receive, unless_settled, concluded, sending, if_sent,
}
use post_quantum_uav_uav.Ledger.Heard.{
  IsClient, HoldsBytes, Keeps, Keeps-refl, Keeps-trans, Heard, Heard-more, handle_arrival-Keeps,
  handle_arrival-taken,
}

module _ (w : WolfCrypt) (e : Awaited) where
  wait_loop-Keeps :
      (arrivals : List Arrival) (c : Client)
      → IsClient c
      → All HoldsBytes arrivals
      → Keeps c (wait_loop w e c arrivals).1
  unfolding wait_loop
  wait_loop-Keeps [] c h hb = Keeps-refl c h
  wait_loop-Keeps (arrival ∷ arrivals) c h (here, hb) =
      let first = handle_arrival-Keeps w e c arrival h here in
      unless_settled-Keeps (handle_arrival w e c arrival) _ first
        (Keeps-trans _ _ _ first (wait_loop-Keeps arrivals _ first.sound hb))
    where
      unless_settled-Keeps :
          (now rest : Verdict × Client)
          → Keeps c now.1
          → Keeps c rest.1
          → Keeps c (unless_settled now rest).1
      unless_settled-Keeps (skipped, c') rest h k = k
      unless_settled-Keeps (not_found, c') rest h k = h
      unless_settled-Keeps (taken n, c') rest h k = h

  abbrev HeardIn : List Arrival → Verdict × Client → Type 0
  HeardIn arrivals (skipped, c) = Unit {0}
  HeardIn arrivals (not_found, c) = Unit {0}
  HeardIn arrivals (taken n, c) = Heard w e c arrivals n

  Heard-first :
      (arrival : Arrival) (arrivals : List Arrival) (v : Verdict × Client)
      → ((n : ℕ) → v.0 ≡ taken n → Heard w e v.1 (arrival ∷ []) n)
      → HeardIn (arrival ∷ arrivals) v
  Heard-first arrival arrivals (skipped, c) h = tt
  Heard-first arrival arrivals (not_found, c) h = tt
  Heard-first arrival arrivals (taken n, c) h =
      Heard-more w e c (arrival ∷ []) (arrival ∷ arrivals) n
        (λ a m. elim m [ inl here ↦ inl here | inr there ↦ absurd there ]) (h n refl)

  heard_later :
      (arrival : Arrival) (arrivals : List Arrival) (v : Verdict × Client)
      → HeardIn arrivals v
      → HeardIn (arrival ∷ arrivals) v
  heard_later arrival arrivals (skipped, c) h = tt
  heard_later arrival arrivals (not_found, c) h = tt
  heard_later arrival arrivals (taken n, c) h =
      Heard-more w e c arrivals (arrival ∷ arrivals) n (λ a m. inr m) h

  unless_settled-HeardIn :
      (arrivals : List Arrival) (now rest : Verdict × Client)
      → HeardIn arrivals now
      → HeardIn arrivals rest
      → HeardIn arrivals (unless_settled now rest)
  unless_settled-HeardIn arrivals (skipped, c) rest h k = k
  unless_settled-HeardIn arrivals (not_found, c) rest h k = h
  unless_settled-HeardIn arrivals (taken n, c) rest h k = h

  wait_loop-HeardIn :
      (arrivals : List Arrival) (c : Client) → HeardIn arrivals (wait_loop w e c arrivals)
  unfolding wait_loop
  wait_loop-HeardIn [] c = tt
  wait_loop-HeardIn (arrival ∷ arrivals) c =
      unless_settled-HeardIn (arrival ∷ arrivals) (handle_arrival w e c arrival) _
        (Heard-first arrival arrivals (handle_arrival w e c arrival)
          (λ n. handle_arrival-taken w e c arrival n))
        (heard_later arrival arrivals _
          (wait_loop-HeardIn arrivals (handle_arrival w e c arrival).1))

  -- What came in one of the attempts.
  abbrev HeardAt : (ℕ → Attempt) → Option ℕ × Client → Type 0
  HeardAt attempts (none, c) = Unit {0}
  HeardAt attempts (some n, c) = (i : ℕ) × Heard w e c (attempts i).arrivals n

  concluded-HeardAt :
      (attempts : ℕ → Attempt) (i : ℕ) (now : Verdict × Client) (rest : Option ℕ × Client)
      → HeardIn (attempts i).arrivals now
      → HeardAt attempts rest
      → HeardAt attempts (concluded now rest)
  concluded-HeardAt attempts i (skipped, c) rest h k = k
  concluded-HeardAt attempts i (not_found, c) rest h k = tt
  concluded-HeardAt attempts i (taken n, c) rest h k = (i, h)

  concluded-Keeps :
      (c : Client) (now : Verdict × Client) (rest : Option ℕ × Client)
      → Keeps c now.1
      → Keeps c rest.1
      → Keeps c (concluded now rest).1
  concluded-Keeps c (skipped, c') rest h k = k
  concluded-Keeps c (not_found, c') rest h k = h
  concluded-Keeps c (taken n, c') rest h k = h

  if_sent-cases {ℓ κ} :
      {A : Type ℓ} (P : A → Type κ) (answer : UdpAnswer) (x y : A)
      → P x
      → P y
      → P (if_sent answer x y)
  if_sent-cases P sent x y h k = h
  if_sent-cases P begin_failed x y h k = k
  if_sent-cases P write_short x y h k = k
  if_sent-cases P end_failed x y h k = k

  module _ (request : List ℕ) (attempts : ℕ → Attempt) where
    attempt_loop-HeardAt :
        (rounds i : ℕ) (c : Client)
        → HeardAt attempts (attempt_loop w e request attempts rounds i c)
    unfolding attempt_loop
    attempt_loop-HeardAt zero i c = tt
    attempt_loop-HeardAt (suc rounds) i c =
        let now = wait_loop w e (sending c request) (attempts i).arrivals in
        if_sent-cases (HeardAt attempts) (attempts i).answer _ _
          (concluded-HeardAt attempts i now _
            (wait_loop-HeardIn (attempts i).arrivals (sending c request))
            (attempt_loop-HeardAt rounds (i + 1) now.1))
          tt

    pub sending-Keeps : (c : Client) → IsClient c → Keeps c (sending c request)
    sending-Keeps c h = record {
      sound = record { size = h.size; bytes = h.bytes };
      gcs_ip = refl;
      gcs_port = refl;
      device_id = refl;
      peer_id = refl;
    }

    attempt_loop-Keeps :
        (rounds i : ℕ) (c : Client)
        → IsClient c
        → ((i : ℕ) → All HoldsBytes (attempts i).arrivals)
        → Keeps c (attempt_loop w e request attempts rounds i c).1
    unfolding attempt_loop
    attempt_loop-Keeps zero i c h hb = Keeps-refl c h
    attempt_loop-Keeps (suc rounds) i c h hb =
        let now = wait_loop w e (sending c request) (attempts i).arrivals in
        let first : Keeps c now.1 = Keeps-trans c (sending c request) now.1 (sending-Keeps c h) (
          wait_loop-Keeps (attempts i).arrivals (sending c request) (sending-Keeps c h).sound
            (hb i)) in
        if_sent-cases (λ (r : Option ℕ × Client). Keeps c r.1) (attempts i).answer _ _
          (concluded-Keeps c now _ first
            (Keeps-trans c now.1 _ first (attempt_loop-Keeps rounds (i + 1) now.1 first.sound hb)))
          (Keeps-refl c h)

    pub send_and_receive-Keeps :
        (c : Client)
        → IsClient c
        → ((i : ℕ) → All HoldsBytes (attempts i).arrivals)
        → Keeps c (send_and_receive w e request attempts c).1
    unfolding send_and_receive
    send_and_receive-Keeps c h hb = attempt_loop-Keeps 4 0 c h hb

    -- A response is returned only where one came in an attempt, from the ledger's address, and went
    -- through all tests.
    pub send_and_receive-Heard :
        (c : Client) (n : ℕ)
        → (send_and_receive w e request attempts c).0 ≡ some n
        → (i : ℕ) × Heard w e (send_and_receive w e request attempts c).1 (attempts i).arrivals n
    unfolding send_and_receive
    send_and_receive-Heard c n = taken_at _ (attempt_loop-HeardAt 4 0 c)
      where
        taken_at :
            (r : Option ℕ × Client)
            → HeardAt attempts r
            → r.0 ≡ some n
            → (i : ℕ) × Heard w e r.1 (attempts i).arrivals n
        taken_at (none, c') h e' = absurd (cc (e'))
        taken_at (some m, c') (i, h) e' =
            (i, subst (λ (k : ℕ). Heard w e c' (attempts i).arrivals k) (cc) h)

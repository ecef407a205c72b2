-- ===== src/Ledger/Through.antt =====
-- GcsLedgerClient.cpp: `sendAndReceive` returns true with the ledger's response.
use post_quantum_uav_uav.Prelude.{
  ℕ, zero, suc, ◌+◌, ◌<◌, ◌≡◌, refl, sym, ap, subst, ◌∙◌, some, Option, List, [], ◌∷◌, ◌++◌, All,
  length, take, arith, take-write_at_front,
}
use post_quantum_uav_uav.Crypto.{WolfCrypt, IsDocumented}
use post_quantum_uav_uav.Transport.Fragment.{Arrival, datagram}
use post_quantum_uav_uav.Transport.Send.{sent}
use post_quantum_uav_uav.Ledger.Client.{
  Client, Awaited, Attempt, Verdict, skipped, not_found, taken, verdict_on, handle_arrival,
  wait_loop, attempt_loop, send_and_receive, read_into, count_read, unless_settled, concluded,
  sending,
}
use post_quantum_uav_uav.Ledger.Heard.{
  IsClient, HoldsBytes, Keeps, Keeps-refl, Keeps-trans, handle_arrival-Keeps,
}
use post_quantum_uav_uav.Ledger.Loop.{sending-Keeps}
use post_quantum_uav_uav.Ledger.Deliver.{
  IsPacket, IsNoise, handle_arrival-IsPacket, handle_arrival-IsNoise,
}

unless_settled-skipped :
    (now rest : Verdict × Client) → now.0 ≡ skipped → unless_settled now rest ≡ rest
unless_settled-skipped (skipped, c) rest h = refl
unless_settled-skipped (not_found, c) rest h = absurd (cc (h))
unless_settled-skipped (taken n, c) rest h = absurd (cc (h))

concluded-skipped :
    (now : Verdict × Client) (rest : Option ℕ × Client)
    → now.0 ≡ skipped
    → concluded now rest ≡ rest
concluded-skipped (skipped, c) rest h = refl
concluded-skipped (not_found, c) rest h = absurd (cc (h))
concluded-skipped (taken n, c) rest h = absurd (cc (h))

concluded-taken :
    (now : Verdict × Client) (rest : Option ℕ × Client) (n : ℕ)
    → now.0 ≡ taken n
    → concluded now rest ≡ (some n, now.1)
concluded-taken (skipped, c) rest n h = absurd (cc (h))
concluded-taken (not_found, c) rest n h = absurd (cc (h))
concluded-taken (taken m, c) rest n h = cc (h)

-- The UDP stack sends every attempt, nothing but noise comes before the response, and it comes in
-- attempt `k`.
pub record IsReached (w : WolfCrypt) (e : Awaited) (ip port : ℕ) (reply : List ℕ)
    (attempts : ℕ → Attempt) : Type 0 where
  pub k : ℕ
  pub tried : k < 4
  pub sends : (j : ℕ) → (attempts j).answer ≡ sent
  pub holds_bytes : (j : ℕ) → All HoldsBytes (attempts j).arrivals
  pub noise_before : (j : ℕ) → j < k → All (IsNoise w e ip port) (attempts j).arrivals
  pub before : List Arrival
  pub after : List Arrival
  pub noise : All (IsNoise w e ip port) before
  pub arrivals : (attempts k).arrivals ≡ before ++ (datagram reply ip port ∷ after)

module _ (w : WolfCrypt) (documented : IsDocumented w) (e : Awaited) (ip port : ℕ) (reply : List ℕ)
    (packet : IsPacket w reply)
    (verdict : verdict_on e reply (length reply) ≡ taken (length reply)) where
  -- The response is in the buffer of a client with the addresses and identities of `c`.
  abbrev Holds : Client → Client → Type 0
  Holds c c' = (take (length reply) c'.buffer ≡ reply) × Keeps c c'

  abbrev Settled : Client → Verdict × Client → Type 0
  Settled c r =
      (r.0 ≡ taken (length reply)) × (take (length reply) r.1.buffer ≡ reply) × Keeps c r.1

  handle_arrival-Settled :
      (c : Client)
      → IsClient c
      → c.gcs_ip ≡ ip
      → c.gcs_port ≡ port
      → Settled c (handle_arrival w e c (datagram reply ip port))
  handle_arrival-Settled c sound hip hport =
      let judged : handle_arrival w e c (datagram reply ip port)
          ≡ (taken (length reply), count_read (read_into c reply) (length reply)) =
        sym (λ k. handle_arrival w e c (datagram reply (hip k) (hport k)))
        ∙ handle_arrival-IsPacket w e c reply sound packet
        ∙ (λ k. (verdict k, count_read (read_into c reply) (length reply))) in
      (
        ap (λ (r : Verdict × Client). r.0) judged,
        ap (λ (r : Verdict × Client). take (length reply) r.1.buffer) judged
            ∙ take-write_at_front reply c.buffer,
        handle_arrival-Keeps w e c (datagram reply ip port) sound packet.holds_bytes,
      )

  unless_settled-Settled :
      (c : Client) (now rest : Verdict × Client)
      → Settled c now
      → Settled c (unless_settled now rest)
  unless_settled-Settled c (skipped, c') rest h = absurd (cc (h.0))
  unless_settled-Settled c (not_found, c') rest h = absurd (cc (h.0))
  unless_settled-Settled c (taken n, c') rest h = h

  wait_loop-Settled :
      (before after : List Arrival) (c : Client)
      → IsClient c
      → c.gcs_ip ≡ ip
      → c.gcs_port ≡ port
      → All HoldsBytes before
      → All (IsNoise w e ip port) before
      → Settled c (wait_loop w e c (before ++ (datagram reply ip port ∷ after)))
  unfolding wait_loop
  wait_loop-Settled [] after c sound hip hport hb noise =
      unless_settled-Settled c _ _ (handle_arrival-Settled c sound hip hport)
  wait_loop-Settled (arrival ∷ before) after c sound hip hport (here, hb) (noise, noises) =
      let first = handle_arrival-Keeps w e c arrival sound here in
      let c' = (handle_arrival w e c arrival).1 in
      let noise' : IsNoise w e c.gcs_ip c.gcs_port arrival =
        subst (λ (a : ℕ × ℕ). IsNoise w e a.0 a.1 arrival) (λ k. (sym hip k, sym hport k)) noise in
      let (settled, held, keeps) =
        wait_loop-Settled before after c' first.sound (first.gcs_ip ∙ hip) (first.gcs_port ∙ hport)
          hb noises in
      subst (Settled c)
        (sym (
          unless_settled-skipped (handle_arrival w e c arrival) _
            (handle_arrival-IsNoise w documented e c arrival sound here noise')))
        (settled, held, Keeps-trans c c' _ first keeps)

  wait_loop-IsNoise :
      (arrivals : List Arrival) (c : Client)
      → IsClient c
      → c.gcs_ip ≡ ip
      → c.gcs_port ≡ port
      → All HoldsBytes arrivals
      → All (IsNoise w e ip port) arrivals
      → ((wait_loop w e c arrivals).0 ≡ skipped) × Keeps c (wait_loop w e c arrivals).1
  unfolding wait_loop
  wait_loop-IsNoise [] c sound hip hport hb noise = (refl, Keeps-refl c sound)
  wait_loop-IsNoise (arrival ∷ arrivals) c sound hip hport (here, hb) (noise, noises) =
      let first = handle_arrival-Keeps w e c arrival sound here in
      let c' = (handle_arrival w e c arrival).1 in
      let noise' : IsNoise w e c.gcs_ip c.gcs_port arrival =
        subst (λ (a : ℕ × ℕ). IsNoise w e a.0 a.1 arrival) (λ k. (sym hip k, sym hport k)) noise in
      let (settled, keeps) =
        wait_loop-IsNoise arrivals c' first.sound (first.gcs_ip ∙ hip) (first.gcs_port ∙ hport) hb
          noises in
      subst (λ (r : Verdict × Client). (r.0 ≡ skipped) × Keeps c r.1)
        (sym (
          unless_settled-skipped (handle_arrival w e c arrival) _
            (handle_arrival-IsNoise w documented e c arrival sound here noise')))
        (settled, Keeps-trans c c' _ first keeps)

  Came_first :
      (before after : List Arrival)
      → All HoldsBytes (before ++ (datagram reply ip port ∷ after))
      → All HoldsBytes before
  Came_first [] after h = tt
  Came_first (arrival ∷ before) after (here, h) = (here, Came_first before after h)

  module _ (request : List ℕ) (attempts : ℕ → Attempt)
      (reached : IsReached w e ip port reply attempts) where
    abbrev Got : Client → Option ℕ × Client → Type 0
    Got c r = (r.0 ≡ some (length reply)) × (take (length reply) r.1.buffer ≡ reply) × Keeps c r.1

    attempt_loop-Got :
        (d rounds i : ℕ) (c : Client)
        → d < rounds
        → i + d ≡ reached.k
        → IsClient c
        → c.gcs_ip ≡ ip
        → c.gcs_port ≡ port
        → Got c (attempt_loop w e request attempts rounds i c)
    unfolding attempt_loop
    attempt_loop-Got d zero i c h at sound hip hport = absurd (omega arith)
    attempt_loop-Got zero (suc rounds) i c h at sound hip hport =
        let c' = sending c request in
        let keeps = sending-Keeps w e request attempts c sound in
        let same : i ≡ reached.k = omega arith in
        let here : (attempts i).arrivals
            ≡ reached.before ++ (datagram reply ip port ∷ reached.after) =
          ap (λ (j : ℕ). (attempts j).arrivals) same ∙ reached.arrivals in
        let (settled, held, kept) =
          subst (λ a. Settled c' (wait_loop w e c' a)) (sym here)
            (wait_loop-Settled reached.before reached.after c' keeps.sound hip hport
              (Came_first reached.before reached.after
                (subst (All HoldsBytes) here (reached.holds_bytes i)))
              reached.noise) in
        rw (reached.sends i) (
          subst (Got c) (sym (concluded-taken _ _ (length reply) settled))
            (refl, held, Keeps-trans c c' _ keeps kept))
    attempt_loop-Got (suc d) (suc rounds) i c h at sound hip hport =
        let c' = sending c request in
        let keeps = sending-Keeps w e request attempts c sound in
        let now = wait_loop w e c' (attempts i).arrivals in
        let (skip, kept) =
          wait_loop-IsNoise (attempts i).arrivals c' keeps.sound hip hport (reached.holds_bytes i)
            (reached.noise_before i (omega arith)) in
        let through = Keeps-trans c c' now.1 keeps kept in
        let (got, held, later) =
          attempt_loop-Got d rounds (i + 1) now.1 (omega arith) (omega arith) kept.sound
            (through.gcs_ip ∙ hip) (through.gcs_port ∙ hport) in
        rw (reached.sends i) (
          subst (Got c) (sym (concluded-skipped now _ skip))
            (got, held, Keeps-trans c now.1 _ through later))

    pub send_and_receive-Got :
        (c : Client)
        → IsClient c
        → c.gcs_ip ≡ ip
        → c.gcs_port ≡ port
        → Got c (send_and_receive w e request attempts c)
    unfolding send_and_receive
    send_and_receive-Got c sound hip hport =
        attempt_loop-Got reached.k 4 0 c reached.tried (omega arith) sound hip hport

-- ===== src/Ledger/Deliver.antt =====
-- GcsLedgerClient.cpp: a response of the ledger gets through to `sendAndReceive`, whatever noise comes
-- before it.
use post_quantum_uav_uav.Prelude.{
  ℕ, ◌+◌, ◌≤◌, ◌<◌, ◌≡◌, ◌≢◌, refl, sym, ap, ◌∙◌, ◌⊎◌, inl, inr, true, false, not, ◌||◌, List, ◌++◌,
  All, length, take, drop, ltb, ◌==◌, ==_iff, ==_refl, arith, same_bytes, same_bytes_refl,
  same_bytes→eq, take-write_at_front, take-append_le, take-append-drop, drop-append_le,
  get_or-append_lt, if-cases, length-drop, length-write_at, All-write_at_front,
}
use post_quantum_uav_uav.Codec.{IsByte, get_u32}
use post_quantum_uav_uav.Codec.Integers.{get_u32-take}
use post_quantum_uav_uav.Crypto.{WolfCrypt, IsDocumented}
use post_quantum_uav_uav.Transport.Fragment.{Arrival, quiet, datagram}
use post_quantum_uav_uav.Ledger.Wire.{magic}
use post_quantum_uav_uav.Ledger.Client.{
  Client, Awaited, Verdict, skipped, verdict_on, judge, is_authentic, handle_arrival, read_into,
  count_read,
}
use post_quantum_uav_uav.Ledger.Heard.{IsClient, HoldsBytes, all_three, not-not}
use post_quantum_uav_uav.Ledger.Authentic.{IsSealed, is_authentic→IsSealed, IsSealed→is_authentic}

-- A packet that the client reads as authentic.
pub record IsPacket (w : WolfCrypt) (bytes : List ℕ) : Type 0 where
  pub lower : 48 ≤ length bytes
  pub upper : length bytes ≤ 400
  pub named : take 4 bytes ≡ magic
  pub sealed : IsSealed w bytes
  pub holds_bytes : All IsByte bytes

-- What the client skips: silence, other senders, other sizes, other protocols, packets without a valid
-- tag, and authentic packets that do not answer the request.
abbrev pub IsNoise : WolfCrypt → Awaited → ℕ → ℕ → Arrival → Type 0
IsNoise w e ip port quiet = Unit {0}
IsNoise w e ip port (datagram bytes source_ip source_port) =
    (source_ip ≢ ip)
    ⊎ (source_port ≢ port)
    ⊎ (length bytes < 40)
    ⊎ (400 < length bytes)
    ⊎ (take 4 bytes ≢ magic)
    ⊎ ¬ IsSealed w bytes
    ⊎ (IsPacket w bytes × (verdict_on e bytes (length bytes) ≡ skipped))

module _ (e : Awaited) (bytes rest : List ℕ) (long : 48 ≤ length bytes) where
  word_same :
      (offset : ℕ)
      → offset + 4 ≤ length bytes
      → get_u32 (drop offset (bytes ++ rest)) ≡ get_u32 (drop offset bytes)
  word_same offset h =
      ap get_u32 (drop-append_le offset bytes rest (omega arith))
      ∙ sym (get_u32-take (drop offset bytes ++ rest))
      ∙ ap get_u32
          (take-append_le 4 (drop offset bytes) rest (omega (arith, length-drop offset bytes)))
      ∙ get_u32-take (drop offset bytes)

  -- The verdict reads the packet only.
  verdict_on-append : (n : ℕ) → verdict_on e (bytes ++ rest) n ≡ verdict_on e bytes n
  unfolding verdict_on
  verdict_on-append n =
      rw
        (
          get_or-append_lt bytes rest 4 0 (omega arith),
          word_same 40 (omega arith),
          word_same 44 (omega arith),
        )
        refl

module _ (w : WolfCrypt) (e : Awaited) where
  judge-IsPacket :
      (c : Client) (bytes : List ℕ)
      → IsClient c
      → IsPacket w bytes
      → take (length bytes) c.buffer ≡ bytes
      → judge w e c (length bytes) c.gcs_ip c.gcs_port ≡ verdict_on e bytes (length bytes)
  unfolding judge
  judge-IsPacket c bytes sound packet held =
      let n = length bytes in
      let lower = packet.lower in
      let upper = packet.upper in
      let parts : c.buffer ≡ bytes ++ drop n c.buffer =
        sym (take-append-drop n c.buffer) ∙ ap (λ t. t ++ drop n c.buffer) held in
      let named : take 4 c.buffer ≡ magic =
        ap (take 4) parts ∙ take-append_le 4 bytes (drop n c.buffer) (omega arith) ∙ packet.named in
      let authentic =
        IsSealed→is_authentic c.buffer bytes n held refl (omega arith) (omega (arith, sound.size)) w
          packet.sealed in
      let verdict : verdict_on e c.buffer n ≡ verdict_on e bytes n =
        ap (λ t. verdict_on e t n) parts
        ∙ verdict_on-append e bytes (drop n c.buffer) packet.lower n in
      rw (==_refl c.gcs_ip, ==_refl c.gcs_port, named, same_bytes_refl magic, authentic) verdict

  not_bounded : (n : ℕ) → 40 ≤ n → n ≤ 400 → ((n == 0) || ltb 400 n) ≡ false
  not_bounded n h k = ground arith

  not_short : (n : ℕ) → 40 ≤ n → ltb n 40 ≡ false
  not_short n h = ground arith

  -- An authentic packet from the ledger's address is judged by its bytes.
  pub handle_arrival-IsPacket :
      (c : Client) (bytes : List ℕ)
      → IsClient c
      → IsPacket w bytes
      → handle_arrival w e c (datagram bytes c.gcs_ip c.gcs_port)
        ≡ (verdict_on e bytes (length bytes), count_read (read_into c bytes) (length bytes))
  unfolding handle_arrival
  handle_arrival-IsPacket c bytes sound packet =
      let n = length bytes in
      let lower = packet.lower in
      let c' = count_read (read_into c bytes) n in
      let sound' : IsClient c' = record {
        size =
            length-write_at 0 bytes c.buffer (omega (arith, sound.size, packet.upper)) ∙ sound.size;
        bytes = All-write_at_front IsByte bytes c.buffer packet.holds_bytes sound.bytes;
      } in
      let judged = judge-IsPacket c' bytes sound' packet (take-write_at_front bytes c.buffer) in
      rw (not_bounded n (omega arith) packet.upper, not_short n (omega arith)) (λ k. (judged k, c'))

module _ (w : WolfCrypt) (documented : IsDocumented w) (e : Awaited) where
  -- A response is skipped where it would be if it went through the other tests.
  judge-skipped :
      (c : Client) (n ip port : ℕ)
      → (ip ≡ c.gcs_ip
          → port ≡ c.gcs_port
          → take 4 c.buffer ≡ magic
          → is_authentic w c.buffer n ≡ true
          → verdict_on e c.buffer n ≡ skipped)
      → judge w e c n ip port ≡ skipped
  unfolding judge
  judge-skipped c n ip port h =
      if-cases (λ (v : Verdict). v ≡ skipped)
        (not (ip == c.gcs_ip)
          || not (port == c.gcs_port)
          || not (same_bytes (take 4 c.buffer) magic))
        _ _ (λ strange. refl)
        (λ known.
          let (ip_same, port_same, named) =
            all_three (ip == c.gcs_ip) (port == c.gcs_port) (same_bytes (take 4 c.buffer) magic)
              known in
          if-cases (λ (v : Verdict). v ≡ skipped) (not (is_authentic w c.buffer n)) _ _
            (λ forged. refl)
            (λ sealed.
              h ((==_iff _ _).0 ip_same) ((==_iff _ _).0 port_same) (same_bytes→eq _ _ named)
                (not-not _ sealed)))

  handle_arrival-skipped :
      (c : Client) (bytes : List ℕ) (ip port : ℕ)
      → (40 ≤ length bytes
          → length bytes ≤ 400
          → judge w e (count_read (read_into c bytes) (length bytes)) (length bytes) ip port
            ≡ skipped)
      → (handle_arrival w e c (datagram bytes ip port)).0 ≡ skipped
  unfolding handle_arrival
  handle_arrival-skipped c bytes ip port h =
      if-cases (λ (r : Verdict × Client). r.0 ≡ skipped)
        ((length bytes == 0) || ltb 400 (length bytes)) _ _ (λ skip. refl)
        (λ fits.
          if-cases (λ (r : Verdict × Client). r.0 ≡ skipped) (ltb (length bytes) 40) _ _
            (λ short. refl) (λ long. h (ground arith) (ground arith)))

  pub handle_arrival-IsNoise :
      (c : Client) (arrival : Arrival)
      → IsClient c
      → HoldsBytes arrival
      → IsNoise w e c.gcs_ip c.gcs_port arrival
      → (handle_arrival w e c arrival).0 ≡ skipped
  unfolding handle_arrival
  handle_arrival-IsNoise c quiet sound hb noise = refl
  handle_arrival-IsNoise c (datagram bytes ip port) sound hb noise =
      handle_arrival-skipped c bytes ip port (λ lower upper.
        let n = length bytes in
        let c' = count_read (read_into c bytes) n in
        let held = take-write_at_front bytes c.buffer in
        let parts : c'.buffer ≡ bytes ++ drop n c'.buffer =
          sym (take-append-drop n c'.buffer) ∙ ap (λ t. t ++ drop n c'.buffer) held in
        judge-skipped c' n ip port (λ ip_same port_same named authentic. elim noise [
          | inl strange ↦ absurd (strange ip_same)
          | inr (inl strange) ↦ absurd (strange port_same)
          | inr (inr (inl short)) ↦ absurd (omega arith)
          | inr (inr (inr (inl long))) ↦ absurd (omega arith)
          | inr (inr (inr (inr (inl other)))) ↦ absurd (
              other (
                sym (take-append_le 4 bytes (drop n c'.buffer) (omega arith))
                ∙ ap (take 4) (sym parts)
                ∙ named))
          | inr (inr (inr (inr (inr (inl forged))))) ↦ absurd (
              forged (
                is_authentic→IsSealed c'.buffer bytes n held refl (omega arith)
                  (omega (
                    arith,
                    length-write_at 0 bytes c.buffer (omega (arith, sound.size)),
                    sound.size,
                  ))
                  w documented (All-write_at_front IsByte bytes c.buffer hb sound.bytes) authentic))
          | inr (inr (inr (inr (inr (inr (packet, verdict)))))) ↦
              ap (λ t. verdict_on e t n) parts
              ∙ verdict_on-append e bytes (drop n c'.buffer) packet.lower n
              ∙ verdict
        ]))

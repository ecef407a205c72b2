-- ===== src/Ledger/RootOrigin.antt =====
-- GcsLedgerClient.cpp: a fetched root is that of an authentic record.
use post_quantum_uav_uav.Prelude.{
  ℕ, zero, suc, ◌+◌, ◌≡◌, refl, sym, ap, subst, ◌∙◌, ◌⊎◌, inl, inr, true, some, none, Option, List,
  All, length, arith, Bool-cases, Option-cases,
}
use post_quantum_uav_uav.Codec.{IsByte}
use post_quantum_uav_uav.Crypto.{WolfCrypt, IsDocumented}
use post_quantum_uav_uav.Transport.Fragment.{datagram}
use post_quantum_uav_uav.Protocol.Peer.{PeerPublicRecord}
use post_quantum_uav_uav.Ledger.Wire.{op_root_record}
use post_quantum_uav_uav.Ledger.Client.{Client, Attempt, send_and_receive}
use post_quantum_uav_uav.Ledger.Fetch.{
  fetch_peer_root, fetch_root_loop, root_query, root_round, root_awaited, is_record_of, record_in,
}
use post_quantum_uav_uav.Ledger.Heard.{IsClient, HoldsBytes, Came}
use post_quantum_uav_uav.Ledger.Loop.{send_and_receive-Keeps, send_and_receive-Heard}
use post_quantum_uav_uav.Ledger.Authentic.{heard-slice, heard-get_u32, heard-get_u64, heard-byte_at}
use post_quantum_uav_uav.Ledger.Origin.{IsRecord, heard-IsRecord, is_other-root}

-- A round gives a record, or passes on what the next rounds give.
root_round-some :
    (r : Option ℕ × Client) (rest : Option PeerPublicRecord × Client) (record_ : PeerPublicRecord)
    → (root_round r rest).0 ≡ some record_
    → ((n : ℕ) × (r.0 ≡ some n)
        × (is_record_of 140 n r.1 ≡ true)
        × (record_in r.1.buffer ≡ record_))
      ⊎ (rest.0 ≡ some record_)
root_round-some (none, c) rest record_ h = inr h
root_round-some (some n, c) rest record_ h = elim (Bool-cases (is_record_of 140 n c)) [
  | inl right ↦ inl (n, refl, right, cc (rw right at h))
  | inr wrong ↦ absurd (cc (rw wrong at h))
]

module _ (w : WolfCrypt) (documented : IsDocumented w) (version : ℕ) where
  -- Where a root record of the peer came from.
  pub record RootSource (c : Client) (attempts : ℕ → ℕ → Attempt) (peer : PeerPublicRecord)
      : Type 0 where
    pub wait_round : ℕ
    pub attempt : ℕ
    pub bytes : List ℕ
    pub came : Came (datagram bytes c.gcs_ip c.gcs_port) (attempts wait_round attempt).arrivals
    pub is_record : IsRecord w 140 op_root_record c.peer_id version bytes
    pub read : record_in bytes ≡ peer

  module _ (request : List ℕ) (attempts : ℕ → ℕ → Attempt)
      (came_bytes : (i j : ℕ) → All HoldsBytes (attempts i j).arrivals)
      (peer : PeerPublicRecord) where
    round_source :
        (c : Client) (sound : IsClient c) (peer_size : length c.peer_id ≡ 32)
        (peer_bytes : All IsByte c.peer_id) (i n : ℕ)
        → let r = send_and_receive w (root_awaited version) request (attempts i) c in
          r.0 ≡ some n
          → is_record_of 140 n r.1 ≡ true
          → record_in r.1.buffer ≡ peer
          → RootSource c attempts peer
    round_source c sound peer_size peer_bytes i n got right held =
        let e = root_awaited version in
        let r = send_and_receive w e request (attempts i) c in
        let (j, heard) = send_and_receive-Heard w e request (attempts i) c n got in
        let keeps = send_and_receive-Keeps w e request (attempts i) c sound (came_bytes i) in
        let arrivals = (attempts i j).arrivals in
        let same_version = is_other-root e r.1.buffer heard.op heard.same in
        let is_record =
          heard-IsRecord w documented e r.1 keeps.sound (ap length keeps.peer_id ∙ peer_size)
            (subst (All IsByte) (sym keeps.peer_id) peer_bytes) arrivals n 140 heard (omega arith)
            right op_root_record refl same_version in
        let full : n ≡ 140 = sym heard.count ∙ is_record.size in
        let word = heard-get_u32 w documented e r.1 keeps.sound arrivals n heard in
        let part = heard-slice w documented e r.1 keeps.sound arrivals n heard in
        let version_field = word 40 (omega arith) in
        let identifier_field = part 44 16 (omega arith) in
        let root_field = part 60 32 (omega arith) in
        let suite_field = word 92 (omega arith) in
        let status_field =
          heard-byte_at w documented e r.1 keeps.sound arrivals n heard 96 (omega arith) in
        let expiry_field =
          heard-get_u64 w documented e r.1 keeps.sound arrivals n heard 100 (omega arith) in
        let same : record_in r.1.buffer ≡ record_in heard.bytes = λ k. record {
          ready = true;
          version = version_field k;
          identifier = identifier_field k;
          root = root_field k;
          suite_id = suite_field k;
          status = status_field k;
          expiry_unix = expiry_field k;
        } in
        record {
          wait_round = i;
          attempt = j;
          bytes = heard.bytes;
          came =
              subst (λ k. Came k arrivals)
                (λ k. datagram heard.bytes (keeps.gcs_ip k) (keeps.gcs_port k)) heard.came;
          is_record =
              subst (λ k. IsRecord w 140 op_root_record k version heard.bytes) keeps.peer_id
                is_record;
          read = sym same ∙ held;
        }

    fetch_root_loop-source :
        (rounds i : ℕ) (c : Client)
        → IsClient c
        → length c.peer_id ≡ 32
        → All IsByte c.peer_id
        → (fetch_root_loop w version request attempts rounds i c).0 ≡ some peer
        → RootSource c attempts peer
    unfolding fetch_root_loop
    fetch_root_loop-source zero i c sound peer_size peer_bytes h = absurd (cc (h))
    fetch_root_loop-source (suc rounds) i c sound peer_size peer_bytes h =
        let e = root_awaited version in
        let r = send_and_receive w e request (attempts i) c in
        let keeps = send_and_receive-Keeps w e request (attempts i) c sound (came_bytes i) in
        elim (root_round-some r _ peer h) [
          | inl (n, got, right, held) ↦ round_source c sound peer_size peer_bytes i n got right held
          | inr later ↦
              (let source =
                  fetch_root_loop-source rounds (i + 1) r.1 keeps.sound
                    (ap length keeps.peer_id ∙ peer_size)
                    (subst (All IsByte) (sym keeps.peer_id) peer_bytes) later in
                let arrivals = (attempts source.wait_round source.attempt).arrivals in
                record {
                  wait_round = source.wait_round;
                  attempt = source.attempt;
                  bytes = source.bytes;
                  came =
                      subst (λ k. Came k arrivals)
                        (λ k. datagram source.bytes (keeps.gcs_ip k) (keeps.gcs_port k))
                        source.came;
                  is_record =
                      subst (λ k. IsRecord w 140 op_root_record k version source.bytes)
                        keeps.peer_id source.is_record;
                  read = source.read;
                })
        ]

  -- A peer's record is fetched only where in one of the attempts of one of the rounds the ledger's
  -- address sent a root record with a valid tag that names the peer and the version, and every field
  -- is that record's.
  pub fetch_peer_root-IsRecord :
      (attempts : ℕ → ℕ → Attempt) (c : Client) (peer : PeerPublicRecord)
      → IsClient c
      → length c.peer_id ≡ 32
      → All IsByte c.peer_id
      → ((i j : ℕ) → All HoldsBytes (attempts i j).arrivals)
      → (fetch_peer_root w version attempts c).0 ≡ some peer
      → RootSource c attempts peer
  unfolding fetch_peer_root
  fetch_peer_root-IsRecord attempts c peer sound peer_size peer_bytes came_bytes h =
      elim (Option-cases (root_query w c version)) [
        | inl failed ↦ absurd (cc (rw (failed, fetch_peer_root) at h))
        | inr (request, asked) ↦
            fetch_root_loop-source request attempts came_bytes peer 120 0 c sound peer_size
              peer_bytes (rw (asked, fetch_peer_root) at h)
      ]

-- ===== src/Ledger/Origin.antt =====
-- GcsLedgerClient.cpp: a fetched path and a fetched root are those of an authentic record.
use post_quantum_uav_uav.Prelude.{
  ℕ, ◌≤◌, ◌<◌, ◌≡◌, refl, sym, ap, subst, ◌∙◌, Bool, true, false, not, ◌&&◌, ◌||◌, some, none,
  Option, List, All, length, take, drop, slice, length-drop, take-all, All-drop, arith, ==_iff,
  ◌==◌, Bool-cases, Option-cases, leb, inl, inr,
}
use post_quantum_uav_uav.Codec.{IsByte, byte_at, get_u32}
use post_quantum_uav_uav.Codec.Compare.{constant_time_equal_iff}
use post_quantum_uav_uav.Crypto.{WolfCrypt, IsDocumented, uint32_max}
use post_quantum_uav_uav.Transport.Fragment.{Arrival, datagram}
use post_quantum_uav_uav.Ledger.Wire.{magic, op_path_record, op_root_record}
use post_quantum_uav_uav.Ledger.Client.{Client, Attempt, Awaited, is_other, send_and_receive}
use post_quantum_uav_uav.Ledger.Fetch.{
  fetch_peer_path, path_query, path_answer, path_awaited, is_record_of,
}
use post_quantum_uav_uav.Ledger.Heard.{IsClient, HoldsBytes, Came, Heard}
use post_quantum_uav_uav.Ledger.Loop.{send_and_receive-Keeps, send_and_receive-Heard}
use post_quantum_uav_uav.Ledger.Authentic.{
  IsSealed, heard-IsSealed, heard-slice, heard-get_u32, heard-byte_at,
}

-- A sealed packet of the given size, operation, identity and version.
pub record IsRecord (w : WolfCrypt) (n code : ℕ) (owner : List ℕ) (v : ℕ) (bytes : List ℕ)
    : Type 0 where
  pub size : length bytes ≡ n
  pub named : take 4 bytes ≡ magic
  pub op : byte_at bytes 4 ≡ code
  pub identity : slice 8 32 bytes ≡ owner
  pub version : get_u32 (drop 40 bytes) ≡ v
  pub sealed : IsSealed w bytes

all_same : (a b : Bool) → not (not a || not b) ≡ true → (a ≡ true) × (b ≡ true)
all_same true true h = (refl, refl)
all_same true false h = cc
all_same false b h = cc

not_other :
    (a b d : Bool) → (not a || (not b && not d)) ≡ false → (a ≡ true) × (b ≡ false → d ≡ true)
not_other true true d h = (refl, λ e. cc)
not_other true false true h = (refl, λ e. refl)
not_other true false false h = cc
not_other false b d h = cc

module _ (w : WolfCrypt) (documented : IsDocumented w) (e : Awaited) (c : Client)
    (sound : IsClient c) (peer_size : length c.peer_id ≡ 32) (peer_bytes : All IsByte c.peer_id)
    (arrivals : List Arrival) (n size : ℕ) (heard : Heard w e c arrivals n) (wide : 48 ≤ size)
    (is_record : is_record_of size n c ≡ true) where
  n_size : n ≡ size
  n_size = (==_iff _ _).0 (all_same (n == size) _ is_record).0

  -- The identity in the response is the peer's.
  identity_peer : slice 8 32 heard.bytes ≡ c.peer_id
  identity_peer =
      sym (heard-slice w documented e c sound arrivals n heard 8 32 (omega (arith, n_size)))
      ∙ (constant_time_equal_iff (drop 8 c.buffer) c.peer_id 32
            (omega (arith, length-drop 8 c.buffer, sound.size)) (omega arith)
            (All-drop IsByte 8 c.buffer sound.bytes) peer_bytes).0
          (all_same (n == size) _ is_record).1
      ∙ take-all 32 c.peer_id (omega arith)

  pub heard-IsRecord :
      (op : ℕ)
      → e.expected_op ≡ op
      → (get_u32 (drop 40 c.buffer) ≡ e.expected_version)
      → IsRecord w size op c.peer_id e.expected_version heard.bytes
  heard-IsRecord op eo ev = record {
    size = heard.count ∙ n_size;
    named =
        sym (heard-slice w documented e c sound arrivals n heard 0 4 (omega (arith, n_size)))
        ∙ heard.named;
    op =
        sym (heard-byte_at w documented e c sound arrivals n heard 4 (omega (arith, n_size)))
        ∙ heard.op
        ∙ eo;
    identity = identity_peer;
    version =
        sym (heard-get_u32 w documented e c sound arrivals n heard 40 (omega (arith, n_size))) ∙ ev;
    sealed = heard-IsSealed w documented e c sound arrivals n heard;
  }

-- What a test on the version and the index lets through.
is_other-path :
    (e : Awaited) (buffer : List ℕ)
    → byte_at buffer 4 ≡ op_path_record
    → e.expected_q < 1024
    → is_other e buffer ≡ false
    → (get_u32 (drop 40 buffer) ≡ e.expected_version) × (get_u32 (drop 44 buffer) ≡ e.expected_q)
is_other-path e buffer op small h =
    let (version, index) =
      not_other (get_u32 (drop 40 buffer) == e.expected_version) (e.expected_q == uint32_max)
        (get_u32 (drop 44 buffer) == e.expected_q) (rw op at h) in
    ((==_iff _ _).0 version, (==_iff _ _).0 (index (ground arith)))

pub is_other-root :
    (e : Awaited) (buffer : List ℕ)
    → byte_at buffer 4 ≡ op_root_record
    → is_other e buffer ≡ false
    → get_u32 (drop 40 buffer) ≡ e.expected_version
is_other-root e buffer op h =
    (==_iff _ _).0
      (not_other (get_u32 (drop 40 buffer) == e.expected_version) (e.expected_q == uint32_max)
        (0 == e.expected_q) (rw op at h)).0

leb-false→lt : (a b : ℕ) → leb a b ≡ false → b < a
leb-false→lt a b h = ground arith

path_answer-some :
    (r : Option ℕ × Client) (path : List ℕ)
    → (path_answer r).0 ≡ some path
    → (n : ℕ) × (r.0 ≡ some n) × (is_record_of 400 n r.1 ≡ true) × (slice 48 320 r.1.buffer ≡ path)
path_answer-some (none, c) path h = absurd (cc (h))
path_answer-some (some n, c) path h = elim (Bool-cases (is_record_of 400 n c)) [
  | inl right ↦ (n, refl, right, cc (rw right at h))
  | inr wrong ↦ absurd (cc (rw wrong at h))
]

module _ (w : WolfCrypt) (documented : IsDocumented w) (c : Client) (sound : IsClient c)
    (peer_size : length c.peer_id ≡ 32) (peer_bytes : All IsByte c.peer_id) (version q : ℕ)
    (attempts : ℕ → Attempt) (came_bytes : (i : ℕ) → All HoldsBytes (attempts i).arrivals) where
  -- A path is fetched only where in one of the attempts the ledger's address sent a path record with
  -- a valid tag that names the peer, the version and the index, and the path is the record's.
  pub fetch_peer_path-IsRecord :
      (path : List ℕ)
      → (fetch_peer_path w version q attempts c).0 ≡ some path
      → (i : ℕ) × (bytes : List ℕ) × Came (datagram bytes c.gcs_ip c.gcs_port) (attempts i).arrivals
        × IsRecord w 400 op_path_record c.peer_id version bytes
        × (get_u32 (drop 44 bytes) ≡ q)
        × (slice 48 320 bytes ≡ path)
  unfolding fetch_peer_path
  fetch_peer_path-IsRecord path h = elim (Bool-cases (leb 1024 q)) [
    | inl out ↦ absurd (cc (rw out at h))
    | inr within ↦ elim (Option-cases (path_query w c version q)) [
      | inl failed ↦ absurd (cc (rw (within, failed) at h))
      | inr (request, asked) ↦
          (let e = path_awaited version q in
            let r = send_and_receive w e request attempts c in
            let (n, got, right, held) = path_answer-some r path (rw (within, asked) at h) in
            let (i, heard) = send_and_receive-Heard w e request attempts c n got in
            let keeps = send_and_receive-Keeps w e request attempts c sound came_bytes in
            let (same_version, same_q) =
              is_other-path e r.1.buffer heard.op (leb-false→lt 1024 q within) heard.same in
            let arrivals = (attempts i).arrivals in
            let is_record =
              heard-IsRecord w documented e r.1 keeps.sound (ap length keeps.peer_id ∙ peer_size)
                (subst (All IsByte) (sym keeps.peer_id) peer_bytes) arrivals n 400 heard
                (omega arith) right op_path_record refl same_version in
            let size = heard.count in
            let full : n ≡ 400 = sym size ∙ is_record.size in
            (
              i,
              heard.bytes,
              subst (λ k. Came k arrivals)
                  (λ k. datagram heard.bytes (keeps.gcs_ip k) (keeps.gcs_port k)) heard.came,
              subst (λ k. IsRecord w 400 op_path_record k version heard.bytes) keeps.peer_id
                  is_record,
              sym (heard-get_u32 w documented e r.1 keeps.sound arrivals n heard 44 (omega arith))
                  ∙ same_q,
              sym (heard-slice w documented e r.1 keeps.sound arrivals n heard 48 320 (omega arith))
                  ∙ held,
            ))
    ]
  ]

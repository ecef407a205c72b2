-- ===== src/Ledger/Heard.antt =====
-- GcsLedgerClient.cpp: what `sendAndReceive` has heard where it returns true, and what it keeps.
use post_quantum_uav_uav.Prelude.{
  ℕ, ◌≤◌, ◌≡◌, refl, sym, ◌∙◌, ◌⊎◌, inl, inr, Bool, true, false, not, ◌||◌, List, [], ◌∷◌, All, ltb,
  ◌==◌, if◌then◌else◌, length, take, take-write_at_front, All-write_at_front, write_at,
  length-write_at, arith, if-cases, Bool-cases, ==_iff, same_bytes, same_bytes→eq,
}
use post_quantum_uav_uav.Codec.{IsByte, byte_at}
use post_quantum_uav_uav.Crypto.{WolfCrypt}
use post_quantum_uav_uav.Transport.Fragment.{Arrival, quiet, datagram}
use post_quantum_uav_uav.Ledger.Wire.{magic, op_not_found}
use post_quantum_uav_uav.Ledger.Client.{
  Client, Awaited, Verdict, skipped, taken, is_other, verdict_on, is_authentic, judge,
  handle_arrival, read_into,
}

-- The buffer has its size and holds bytes.
pub record IsClient (c : Client) : Type 0 where
  pub size : length c.buffer ≡ 400
  pub bytes : All IsByte c.buffer

-- The datagrams hold bytes.
abbrev pub HoldsBytes : Arrival → Type 0
HoldsBytes quiet = Unit {0}
HoldsBytes (datagram bytes source_ip source_port) = All IsByte bytes

abbrev pub Came : Arrival → List Arrival → Type 0
Came a [] = ⊥
Came a (b ∷ arrivals) = (a ≡ b) ⊎ Came a arrivals

-- The addresses and identities of `c` in a sound state `c'`.
pub record Keeps (c c' : Client) : Type 0 where
  pub sound : IsClient c'
  pub gcs_ip : c'.gcs_ip ≡ c.gcs_ip
  pub gcs_port : c'.gcs_port ≡ c.gcs_port
  pub device_id : c'.device_id ≡ c.device_id
  pub peer_id : c'.peer_id ≡ c.peer_id

pub Keeps-refl : (c : Client) → IsClient c → Keeps c c
Keeps-refl c h = record {
  sound = h;
  gcs_ip = refl;
  gcs_port = refl;
  device_id = refl;
  peer_id = refl;
}

pub Keeps-trans : (a b c : Client) → Keeps a b → Keeps b c → Keeps a c
Keeps-trans a b c h k = record {
  sound = k.sound;
  gcs_ip = k.gcs_ip ∙ h.gcs_ip;
  gcs_port = k.gcs_port ∙ h.gcs_port;
  device_id = k.device_id ∙ h.device_id;
  peer_id = k.peer_id ∙ h.peer_id;
}

-- The response of `n` bytes in the buffer of `c`: a datagram that came from the ledger's address and
-- went through all tests.
pub record Heard (w : WolfCrypt) (e : Awaited) (c : Client) (arrivals : List Arrival) (n : ℕ)
    : Type 0 where
  pub bytes : List ℕ
  pub came : Came (datagram bytes c.gcs_ip c.gcs_port) arrivals
  pub count : length bytes ≡ n
  pub lower : 40 ≤ n
  pub upper : n ≤ 400
  pub held : take n c.buffer ≡ bytes
  pub named : take 4 c.buffer ≡ magic
  pub authentic : is_authentic w c.buffer n ≡ true
  pub op : byte_at c.buffer 4 ≡ e.expected_op
  pub same : is_other e c.buffer ≡ false

length-written :
    (bytes buffer : List ℕ)
    → length buffer ≡ 400
    → length bytes ≤ 400
    → length (write_at 0 bytes buffer) ≡ 400
length-written bytes buffer h hb = length-write_at 0 bytes buffer (omega arith) ∙ h

pub all_three :
    (a b d : Bool) → (not a || not b || not d) ≡ false → (a ≡ true) × (b ≡ true) × (d ≡ true)
all_three true true true h = (refl, refl, refl)
all_three true true false h = cc
all_three true false d h = cc
all_three false b d h = cc

pub not-not : (b : Bool) → not b ≡ false → b ≡ true
not-not true h = refl
not-not false h = cc

module _ (w : WolfCrypt) (e : Awaited) where
  written :
      (c : Client) (bytes : List ℕ)
      → IsClient c
      → All IsByte bytes
      → length bytes ≤ 400
      → Keeps c (read_into c bytes)
  written c bytes h hb fits = record {
    sound = record {
      size = length-written bytes c.buffer h.size fits;
      bytes = All-write_at_front IsByte bytes c.buffer hb h.bytes;
    };
    gcs_ip = refl;
    gcs_port = refl;
    device_id = refl;
    peer_id = refl;
  }

  pub handle_arrival-Keeps :
      (c : Client) (arrival : Arrival)
      → IsClient c
      → HoldsBytes arrival
      → Keeps c (handle_arrival w e c arrival).1
  unfolding handle_arrival
  handle_arrival-Keeps c quiet h hb = Keeps-refl c h
  handle_arrival-Keeps c (datagram bytes ip port) h hb =
      if-cases (λ (r : Verdict × Client). Keeps c r.1)
        ((length bytes == 0) || ltb 400 (length bytes)) _ _ (λ skip. Keeps-refl c h)
        (λ fits.
          let kept = written c bytes h hb (ground arith) in
          if-cases (λ (r : Verdict × Client). Keeps c r.1) (ltb (length bytes) 40) _ _
            (λ short. kept)
            (λ long. record {
              sound = record { size = kept.sound.size; bytes = kept.sound.bytes };
              gcs_ip = refl;
              gcs_port = refl;
              device_id = refl;
              peer_id = refl;
            }))

  -- The verdict on a response that is taken is its length.
  verdict_on-taken :
      (buffer : List ℕ) (n m : ℕ)
      → verdict_on e buffer n ≡ taken m
      → (n ≡ m) × (byte_at buffer 4 ≡ e.expected_op) × (is_other e buffer ≡ false)
  unfolding verdict_on
  verdict_on-taken buffer n m h = elim (Bool-cases (byte_at buffer 4 == op_not_found)) [
    | inl missing ↦ cc (rw missing at h)
    | inr found ↦ elim (Bool-cases (byte_at buffer 4 == e.expected_op)) [
      | inr wrong ↦ cc (rw (found, wrong) at h)
      | inl right ↦ elim (Bool-cases (is_other e buffer)) [
        | inl other ↦ cc (rw (found, right, other) at h)
        | inr same ↦ (cc (rw (found, right, same) at h), (==_iff _ _).0 right, same)
      ]
    ]
  ]

  -- A test that does not skip the response.
  unless_skipped :
      (b : Bool) (v : Verdict) (m : ℕ)
      → (if b then skipped else v) ≡ taken m
      → (b ≡ false) × (v ≡ taken m)
  unless_skipped true v m h = cc
  unless_skipped false v m h = (refl, h)

  judge-taken :
      (c : Client) (n m ip port : ℕ)
      → judge w e c n ip port ≡ taken m
      → (ip ≡ c.gcs_ip)
        × (port ≡ c.gcs_port)
        × (take 4 c.buffer ≡ magic)
        × (is_authentic w c.buffer n ≡ true)
        × (verdict_on e c.buffer n ≡ taken m)
  unfolding judge
  judge-taken c n m ip port h =
      let (sender, h) = unless_skipped _ _ m h in
      let (ip_same, port_same, named) =
        all_three (ip == c.gcs_ip) (port == c.gcs_port) (same_bytes (take 4 c.buffer) magic)
          sender in
      let (sealed, h) = unless_skipped _ _ m h in
      (
        (==_iff _ _).0 ip_same,
        (==_iff _ _).0 port_same,
        same_bytes→eq _ _ named,
        not-not _ sealed,
        h,
      )

  pub handle_arrival-taken :
      (c : Client) (arrival : Arrival) (n : ℕ)
      → (handle_arrival w e c arrival).0 ≡ taken n
      → Heard w e (handle_arrival w e c arrival).1 (arrival ∷ []) n
  unfolding handle_arrival
  handle_arrival-taken c quiet n = λ h. cc
  handle_arrival-taken c (datagram bytes ip port) n =
      if-cases
        (λ (r : Verdict × Client). r.0 ≡ taken n → Heard w e r.1 (datagram bytes ip port ∷ []) n)
        ((length bytes == 0) || ltb 400 (length bytes)) _ _ (λ skip h. cc)
        (λ fits.
          if-cases
            (λ (r : Verdict × Client).
              r.0 ≡ taken n → Heard w e r.1 (datagram bytes ip port ∷ []) n)
            (ltb (length bytes) 40) _ _ (λ short h. cc)
            (λ long h.
              let (ip_same, port_same, named, sealed, verdict) = judge-taken _ _ n ip port h in
              let (count, op, same) = verdict_on-taken _ _ n verdict in
              record {
                bytes = bytes;
                came = inl (λ i. datagram bytes (sym ip_same i) (sym port_same i));
                count = count;
                lower = ground arith;
                upper = ground arith;
                held = rw (← count) (take-write_at_front bytes c.buffer);
                named = named;
                authentic = rw (← count) sealed;
                op = op;
                same = same;
              }))

-- A response is heard among more arrivals too.
pub Heard-more :
    (w : WolfCrypt) (e : Awaited) (c : Client) (few many : List Arrival) (n : ℕ)
    → ((a : Arrival) → Came a few → Came a many)
    → Heard w e c few n
    → Heard w e c many n
Heard-more w e c few many n more h = record {
  bytes = h.bytes;
  came = more _ h.came;
  count = h.count;
  lower = h.lower;
  upper = h.upper;
  held = h.held;
  named = h.named;
  authentic = h.authentic;
  op = h.op;
  same = h.same;
}

-- ===== src/Tests/Ledger.antt =====
-- The ledger's client and server at concrete inputs.
use post_quantum_uav_uav.Prelude.{
  ℕ, ◌-◌, ◌≤◌, ◌<◌, ◌≡◌, refl, ap, ◌∙◌, inl, true, some, Option, List, [], ◌∷◌, ◌++◌, All,
  All-replicate, length, length-replicate, replicate, drop, slice, arith,
}
use post_quantum_uav_uav.Codec.{IsByte, get_u32}
use post_quantum_uav_uav.Crypto.{ok, hmac}
use post_quantum_uav_uav.Crypto.Sha.{hmac_total}
use post_quantum_uav_uav.Transport.Fragment.{Arrival, quiet, datagram}
use post_quantum_uav_uav.Transport.Send.{sent}
use post_quantum_uav_uav.Ledger.Wire.{gcs_ledger_hmac_key, op_enroll_path, op_path_record}
use post_quantum_uav_uav.Ledger.Client.{Client, Attempt, new_client}
use post_quantum_uav_uav.Ledger.Fetch.{fetch_peer_path, path_awaited}
use post_quantum_uav_uav.Ledger.Server.{
  Tables, empty_tables, parse_path_record, handle_packet, upsert_path,
}
use post_quantum_uav_uav.Ledger.Heard.{IsClient, Came, HoldsBytes}
use post_quantum_uav_uav.Ledger.Through.{IsReached}
use post_quantum_uav_uav.Ledger.Layout.{Agrees, packet}
use post_quantum_uav_uav.Ledger.Served.{
  path_fields, path_query_fields, handle_packet-enrolment, get_path-upsert_path,
}
use post_quantum_uav_uav.Ledger.Exchange.{
  IsIdentity, query_sent, reply-IsPacket, fetch_peer_path-reply,
}
use post_quantum_uav_uav.Ledger.Origin.{IsRecord, fetch_peer_path-IsRecord}
use post_quantum_uav_uav.Ledger.Tables.{serve, Respects, Enrolled, serve-Enrolled}
use post_quantum_uav_uav.Ledger.Enrolled.{
  fetch_peer_path-enrolled, request_sent, handle_packet-enrolled,
}
use post_quantum_uav_uav.Tests.Toy.{
  toy, toy-IsDocumented, toy-IsReliableHmac, digest, digest-IsDigest,
}

-- Python's HMAC for the toy wolfSSL.
pub tag : List ℕ → List ℕ
tag bytes = digest (gcs_ledger_hmac_key ++ bytes)

hmac-tag :
    (bytes : List ℕ) → length bytes ≤ 368 → hmac toy gcs_ledger_hmac_key bytes ≡ ok (tag bytes)
unfolding tag
hmac-tag [] h = hmac_total toy toy-IsReliableHmac gcs_ledger_hmac_key [] (omega arith) (omega arith)
hmac-tag (b ∷ bytes) h =
    hmac_total toy toy-IsReliableHmac gcs_ledger_hmac_key (b ∷ bytes) (omega arith) (omega arith)

pub toy-Agrees : Agrees toy tag
unfolding tag
toy-Agrees = record {
  same = hmac-tag;
  digest = λ bytes. digest-IsDigest (gcs_ledger_hmac_key ++ bytes);
}

abbrev pub uav : ℕ → Client
uav b = record new_client {
  gcs_ip = 9;
  gcs_port = 5001;
  device_id = replicate 32 b;
  peer_id = replicate 32 (3 - b);
}

pub filled-IsIdentity : (b : ℕ) → b < 256 → IsIdentity (replicate 32 b)
filled-IsIdentity b h = record {
  size = length-replicate {A = ℕ} 32 b;
  bytes = All-replicate IsByte 32 b h;
}

pub uav-IsClient : (b : ℕ) → IsClient (uav b)
uav-IsClient b = record {
  size = length-replicate {A = ℕ} 400 0;
  bytes = All-replicate IsByte 400 0 (omega arith);
}

abbrev some_path : List ℕ
some_path = replicate 320 7

-- What `uav 1` sends for this path, what `uav 2` asks, and the ledger's answer.
abbrev enrolment : List ℕ
enrolment = packet tag (path_fields op_enroll_path (uav 1).device_id 1 3 some_path) 0

abbrev query : List ℕ
query = packet tag (path_query_fields (uav 2).device_id (uav 2).peer_id 1 3) 0

abbrev path_record : List ℕ
path_record = packet tag (path_fields op_path_record (uav 2).peer_id 1 3 some_path) 0

abbrev arrivals : List Arrival
arrivals = quiet ∷ datagram (1 ∷ 2 ∷ []) 8 8 ∷ datagram path_record 9 5001 ∷ quiet ∷ []

abbrev attempts : ℕ → Attempt
attempts j = record { answer = sent; arrivals = arrivals }

path_record-IsByte : All IsByte path_record
path_record-IsByte =
    (reply-IsPacket toy toy-IsDocumented tag toy-Agrees (uav 2) (uav-IsClient 2)
      (filled-IsIdentity 2 (omega arith)) (filled-IsIdentity 1 (omega arith)) 1 3 (omega arith)
      (omega arith) some_path (length-replicate {A = ℕ} 320 7)
      (All-replicate IsByte 320 7 (omega arith))).holds_bytes

attempts-IsReached : IsReached toy (path_awaited 1 3) 9 5001 path_record attempts
attempts-IsReached = record {
  k = 0;
  tried = omega arith;
  sends = λ j. refl;
  holds_bytes = λ j. (tt, ((omega arith), (path_record-IsByte, (tt, tt))));
  noise_before = λ j h. absurd (omega arith);
  before = quiet ∷ datagram (1 ∷ 2 ∷ []) 8 8 ∷ [];
  after = quiet ∷ [];
  noise = (tt, (inl (omega arith), tt));
  arrivals = refl;
}

-- A packet that is too short enrols nothing.
short-Respects : Respects tag (uav 1).device_id 1 3 some_path (1 ∷ 2 ∷ 3 ∷ [])
unfolding parse_path_record
short-Respects other e = absurd (cc (e))

came_bytes : (i : ℕ) → All HoldsBytes arrivals
came_bytes i = (tt, ((omega arith, (omega arith, tt)), (path_record-IsByte, (tt, tt))))

fetched : (fetch_peer_path toy 1 3 attempts (uav 2)).0 ≡ some some_path
fetched =
    fetch_peer_path-reply toy toy-IsDocumented tag toy-Agrees (uav 2) (uav-IsClient 2)
      (filled-IsIdentity 2 (omega arith)) (filled-IsIdentity 1 (omega arith)) 1 3 (omega arith)
      (omega arith) some_path (length-replicate {A = ℕ} 320 7)
      (All-replicate IsByte 320 7 (omega arith)) attempts attempts-IsReached

fetch_peer_path-IsRecord_example :
    (i : ℕ) × (bytes : List ℕ) × Came (datagram bytes 9 5001) arrivals
    × IsRecord toy 400 op_path_record (uav 2).peer_id 1 bytes
    × (get_u32 (drop 44 bytes) ≡ 3)
    × (slice 48 320 bytes ≡ some_path)
fetch_peer_path-IsRecord_example =
    fetch_peer_path-IsRecord toy toy-IsDocumented (uav 2) (uav-IsClient 2)
      (length-replicate {A = ℕ} 32 1) (All-replicate IsByte 32 1 (omega arith)) 1 3 attempts
      came_bytes some_path fetched

enrolled : (serve tag empty_tables (enrolment ∷ [])).get_path (uav 1).device_id 1 3 ≡ some some_path
unfolding serve
enrolled =
    ap (λ (r : Option (List ℕ) × Tables). r.1.get_path (uav 1).device_id 1 3)
      (handle_packet-enrolment tag toy-Agrees.digest op_enroll_path (uav 1).device_id some_path 1 3
        (length-replicate {A = ℕ} 32 1) (length-replicate {A = ℕ} 320 7) empty_tables refl refl
        (omega arith) (omega arith))
    ∙ get_path-upsert_path empty_tables (uav 1).device_id 1 3 some_path

serve-Enrolled_example : Enrolled tag (uav 1).device_id 1 3 some_path (enrolment ∷ [])
serve-Enrolled_example =
    serve-Enrolled tag (uav 1).device_id 1 3 some_path (enrolment ∷ []) enrolled

running : (serve tag empty_tables (enrolment ∷ (1 ∷ 2 ∷ 3 ∷ []) ∷ [])).running ≡ true
unfolding serve handle_packet upsert_path
running =
    ap (λ (r : Option (List ℕ) × Tables). (handle_packet tag r.1 (1 ∷ 2 ∷ 3 ∷ [])).1.running)
      (handle_packet-enrolment tag toy-Agrees.digest op_enroll_path (uav 1).device_id some_path 1 3
        (length-replicate {A = ℕ} 32 1) (length-replicate {A = ℕ} 320 7) empty_tables refl refl
        (omega arith) (omega arith))

fetch_peer_path-enrolled_example : (fetch_peer_path toy 1 3 attempts (uav 2)).0 ≡ some some_path
fetch_peer_path-enrolled_example =
    fetch_peer_path-enrolled toy toy-IsDocumented tag toy-Agrees (uav 1)
      (filled-IsIdentity 1 (omega arith)) 1 3 (omega arith) (omega arith) some_path
      (length-replicate {A = ℕ} 320 7) (All-replicate IsByte 320 7 (omega arith)) (uav 2)
      (uav-IsClient 2) (filled-IsIdentity 2 (omega arith)) refl empty_tables ((1 ∷ 2 ∷ 3 ∷ []) ∷ [])
      enrolment query path_record attempts
      (request_sent toy toy-IsDocumented tag toy-Agrees (uav 1) (filled-IsIdentity 1 (omega arith))
        1 3 (omega arith) (omega arith) some_path (length-replicate {A = ℕ} 320 7)
        (All-replicate IsByte 320 7 (omega arith)))
      (short-Respects, tt)
      (query_sent toy toy-IsDocumented tag toy-Agrees (uav 2) (uav-IsClient 2)
        (filled-IsIdentity 2 (omega arith)) (filled-IsIdentity 1 (omega arith)) 1 3 (omega arith)
        (omega arith) some_path (length-replicate {A = ℕ} 320 7)
        (All-replicate IsByte 320 7 (omega arith)))
      (handle_packet-enrolled toy toy-IsDocumented tag toy-Agrees (uav 1)
        (filled-IsIdentity 1 (omega arith)) 1 3 (omega arith) (omega arith) some_path
        (length-replicate {A = ℕ} 320 7) (All-replicate IsByte 320 7 (omega arith))
        (uav 2).device_id (uav 2).peer_id (length-replicate {A = ℕ} 32 2) empty_tables
        ((1 ∷ 2 ∷ 3 ∷ []) ∷ []) refl (short-Respects, tt) running)
      attempts-IsReached

-- ===== src/Ledger/Exchange.antt =====
-- GcsLedgerClient.cpp and gcs_ledger_server.py together: paths that are enrolled and fetched.
use post_quantum_uav_uav.Prelude.{
  some-injective, ℕ, ◌+◌, ◌^◌, ◌≤◌, ◌<◌, ◌≡◌, refl, sym, ap, ◌∙◌, true, false, some, none, Option,
  List, [], ◌∷◌, All, length, take, drop, slice, leb, ◌==◌, ==_refl, ==_iff, arith, take-all,
  length-drop, padded, All-padded, Sized, total,
}
use post_quantum_uav_uav.Codec.{IsByte, put_u32, constant_time_equal}
use post_quantum_uav_uav.Codec.Integers.{put_u32-IsByte}
use post_quantum_uav_uav.Codec.Compare.{constant_time_equal-take}
use post_quantum_uav_uav.Crypto.{WolfCrypt, IsDocumented, uint32_max}
use post_quantum_uav_uav.Ledger.Wire.{magic, op_path_record, get_path_body}
use post_quantum_uav_uav.Ledger.Client.{Client, Attempt, taken, verdict_on, send_and_receive}
use post_quantum_uav_uav.Ledger.Fetch.{fetch_peer_path, path_query, path_answer, path_awaited}
use post_quantum_uav_uav.Ledger.Heard.{IsClient, Keeps}
use post_quantum_uav_uav.Ledger.Deliver.{IsPacket}
use post_quantum_uav_uav.Ledger.Through.{IsReached, send_and_receive-Got}
use post_quantum_uav_uav.Ledger.Layout.{
  Agrees, packet, packet_fields, packet_sized, packet-bytes, packet-IsSealed, with_tag-packet,
  length-packet, slice-packet, word-packet, byte-packet,
}
use post_quantum_uav_uav.Ledger.Served.{
  head_fields, path_fields, path_query_fields, path_sized, query_sized,
}

-- An identity: 32 bytes.
pub record IsIdentity (identity : List ℕ) : Type 0 where
  pub size : length identity ≡ 32
  pub bytes : All IsByte identity

module _ (w : WolfCrypt) (tag : List ℕ → List ℕ) (agrees : Agrees w tag) where
  -- A packet with the head of the protocol, of a size that the client reads.
  pub packet-IsPacket :
      (op n trail : ℕ) (identity : List ℕ) (fields : List (ℕ × ℕ × List ℕ))
      → let all = head_fields op identity fields in
        Sized (padded all)
        → total (padded all) + trail + 32 ≡ n
        → 48 ≤ n
        → n ≤ 400
        → op < 256
        → All IsByte identity
        → All (λ field. All IsByte field.2) fields
        → IsPacket w (packet tag all trail)
  packet-IsPacket op n trail identity fields sized size lower upper op_fits hi hf =
      let all = head_fields op identity fields in
      let digest = agrees.digest in
      let long = length-packet all trail n sized size tag digest in
      record {
        lower = omega arith;
        upper = omega arith;
        named =
            slice-packet tag all trail (packet_sized all trail n sized size tag digest) 1 0 4 magic
              refl refl refl;
        sealed = packet-IsSealed all trail n sized size w tag agrees upper;
        holds_bytes =
            packet-bytes all trail n sized size tag digest
              (All-padded IsByte all (omega arith) (omega arith, ((op_fits, tt), (hi, hf))));
      }

module _ (w : WolfCrypt) (documented : IsDocumented w) (tag : List ℕ → List ℕ)
    (agrees : Agrees w tag) (c : Client) (sound : IsClient c) (device : IsIdentity c.device_id)
    (peer : IsIdentity c.peer_id) (version q : ℕ) (version_fits : version < 2 ^ 32)
    (q_fits : q < 1024) (path : List ℕ) (path_size : length path ≡ 320)
    (path_bytes : All IsByte path) where
  abbrev pub fields : List (ℕ × ℕ × List ℕ)
  fields = path_fields op_path_record c.peer_id version q path

  abbrev pub reply : List ℕ
  reply = packet tag fields 0

  sized : Sized (padded fields)
  sized = path_sized tag agrees.digest op_path_record c.peer_id path version q peer.size path_size

  whole : Sized (packet_fields tag fields 0)
  whole = packet_sized fields 0 400 sized refl tag agrees.digest

  long : length reply ≡ 400
  long = length-packet fields 0 400 sized refl tag agrees.digest

  pub reply-IsPacket : IsPacket w reply
  reply-IsPacket =
      packet-IsPacket w tag agrees op_path_record 400 0 c.peer_id
        ((0, 4, put_u32 version) ∷ (0, 4, put_u32 q) ∷ (0, 320, path) ∷ []) sized refl (omega arith)
        (omega arith) (omega arith) peer.bytes
        (put_u32-IsByte version, (put_u32-IsByte q, (path_bytes, tt)))

  not_max : (q == uint32_max) ≡ false
  not_max = ground arith

  reply_taken : verdict_on (path_awaited version q) reply (length reply) ≡ taken (length reply)
  unfolding verdict_on
  reply_taken =
      rw
        (
          byte-packet tag fields 0 whole 3 4 op_path_record refl refl,
          word-packet tag fields 0 whole 7 40 version refl refl version_fits,
          word-packet tag fields 0 whole 9 44 q refl refl (omega arith),
          ==_refl version,
          not_max,
          ==_refl q,
        )
        refl

  pub query_sent :
      path_query w c version q
      ≡ some (packet tag (path_query_fields c.device_id c.peer_id version q) 0)
  unfolding path_query get_path_body
  query_sent =
      with_tag-packet (path_query_fields c.device_id c.peer_id version q) 0 112
        (query_sized tag agrees.digest c.device_id c.peer_id version q device.size peer.size) refl w
        tag agrees (omega arith)

  path_answer-reply :
      (r : Option ℕ × Client)
      → r.0 ≡ some (length reply)
      → take (length reply) r.1.buffer ≡ reply
      → Keeps c r.1
      → (path_answer r).0 ≡ some path
  path_answer-reply (none, c') got held keeps = absurd (cc (got))
  path_answer-reply (some n, c') got held keeps =
      let count : n ≡ 400 = some-injective got ∙ long in
      let full : c'.buffer ≡ reply =
        sym (take-all (length reply) c'.buffer (omega (arith, long, keeps.sound.size))) ∙ held in
      let owner : slice 8 32 reply ≡ c.peer_id =
        slice-packet tag fields 0 whole 5 8 32 c.peer_id refl refl peer.size in
      let same : constant_time_equal (drop 8 c'.buffer) c'.peer_id 32 ≡ true =
        constant_time_equal-take (drop 8 c'.buffer) c'.peer_id 32
          (omega (arith, length-drop 8 c'.buffer, keeps.sound.size))
          (omega (arith, ap length keeps.peer_id, peer.size))
          (ap (slice 8 32) full
            ∙ owner
            ∙ sym keeps.peer_id
            ∙ sym (take-all 32 c'.peer_id (omega (arith, ap length keeps.peer_id, peer.size)))) in
      let held_path : slice 48 320 c'.buffer ≡ path =
        ap (slice 48 320) full
        ∙ slice-packet tag fields 0 whole 11 48 320 path refl refl path_size in
      rw ((==_iff n 400).1 count, same) (ap some held_path)

  not_out : leb 1024 q ≡ false
  not_out = ground arith

  -- The path record of the ledger gives its path.
  pub fetch_peer_path-reply :
      (attempts : ℕ → Attempt)
      → IsReached w (path_awaited version q) c.gcs_ip c.gcs_port reply attempts
      → (fetch_peer_path w version q attempts c).0 ≡ some path
  unfolding fetch_peer_path
  fetch_peer_path-reply attempts reached =
      let request = packet tag (path_query_fields c.device_id c.peer_id version q) 0 in
      let (got, held, keeps) =
        send_and_receive-Got w documented (path_awaited version q) c.gcs_ip c.gcs_port reply
          reply-IsPacket reply_taken request attempts reached c sound refl refl in
      rw (not_out, query_sent)
        (path_answer-reply (send_and_receive w (path_awaited version q) request attempts c) got held
          keeps)

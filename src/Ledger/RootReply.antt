-- ===== src/Ledger/RootReply.antt =====
-- GcsLedgerClient.cpp: an acknowledgement and a root record that reach the client.
use post_quantum_uav_uav.Prelude.{
  some-injective, ℕ, ◌+◌, ◌^◌, ◌≤◌, ◌<◌, ◌≡◌, refl, sym, ap, ◌∙◌, true, some, none, Option, List,
  [], ◌∷◌, All, length, take, drop, slice, ==_refl, ==_iff, arith, take-all, length-drop,
  append-nil, slice-append, take-append-drop, get_or-append_lt, ◌++◌, padded, Sized, Sized-padded,
}
use post_quantum_uav_uav.Codec.{
  IsByte, byte_at, put_u32, get_u32, put_u64, get_u64, constant_time_equal,
}
use post_quantum_uav_uav.Codec.Integers.{
  length-put_u32, length-put_u64, put_u32-IsByte, put_u64-IsByte, get_u32-take, get_u64-take,
  get_u64-put_u64,
}
use post_quantum_uav_uav.Codec.Compare.{constant_time_equal-take}
use post_quantum_uav_uav.Crypto.{WolfCrypt, IsDocumented}
use post_quantum_uav_uav.Crypto.Sha.{IsDigest}
use post_quantum_uav_uav.Protocol.Peer.{PeerPublicRecord}
use post_quantum_uav_uav.Ledger.Wire.{op_root_record, get_root_body, op_get_root}
use post_quantum_uav_uav.Ledger.Client.{Client, Attempt, taken, verdict_on, send_and_receive}
use post_quantum_uav_uav.Ledger.Fetch.{
  fetch_peer_root, fetch_root_loop, root_query, root_round, root_awaited, record_in,
}
use post_quantum_uav_uav.Ledger.Server.{RootRow}
use post_quantum_uav_uav.Ledger.Heard.{IsClient, Keeps}
use post_quantum_uav_uav.Ledger.Deliver.{IsPacket}
use post_quantum_uav_uav.Ledger.Through.{IsReached, send_and_receive-Got}
use post_quantum_uav_uav.Ledger.Layout.{
  Agrees, packet, packet_fields, packet_sized, with_tag-packet, length-packet, slice-packet,
  word-packet, byte-packet,
}
use post_quantum_uav_uav.Ledger.Served.{head_fields}
use post_quantum_uav_uav.Ledger.Exchange.{IsIdentity, packet-IsPacket}

-- A root with its owner and version: ENROLL_ROOT and ROOT_RECORD.
abbrev pub root_fields : ℕ → List ℕ → ℕ → RootRow → List (ℕ × ℕ × List ℕ)
root_fields op identity version row = head_fields op identity (
    (0, 4, put_u32 version)
    ∷ (0, 16, row.identifier)
    ∷ (0, 32, row.root)
    ∷ (0, 4, put_u32 row.suite_id)
    ∷ (0, 1, row.status ∷ [])
    ∷ (3, 8, put_u64 row.expiry_unix)
    ∷ [])

-- A row whose fields fit their places.
pub record IsRow (row : RootRow) : Type 0 where
  pub identifier_size : length row.identifier ≡ 16
  pub identifier_bytes : All IsByte row.identifier
  pub root_size : length row.root ≡ 32
  pub root_bytes : All IsByte row.root
  pub suite_fits : row.suite_id < 2 ^ 32
  pub status_fits : row.status < 256
  pub expiry_fits : row.expiry_unix < 2 ^ 64

-- What `fetchPeerRoot` makes of a row.
abbrev pub record_of : ℕ → RootRow → PeerPublicRecord
record_of version row = record {
  ready = true;
  version = version;
  suite_id = row.suite_id;
  status = row.status;
  expiry_unix = row.expiry_unix;
  identifier = row.identifier;
  root = row.root;
}

-- What `fetchPeerRoot` reads stands in the first 140 bytes.
record_in-append :
    (bytes rest : List ℕ) → length bytes ≡ 140 → record_in (bytes ++ rest) ≡ record_in bytes
record_in-append bytes rest h =
    let at_u32 : (o : ℕ) → o + 4 ≤ 140 → get_u32 (drop o (bytes ++ rest)) ≡ get_u32 (drop o bytes) =
      λ o within.
        sym (get_u32-take (drop o (bytes ++ rest)))
        ∙ ap get_u32 (slice-append o 4 bytes rest (omega (arith, h, within)))
        ∙ get_u32-take (drop o bytes) in
    let at_version = at_u32 40 (omega arith) in
    let at_suite = at_u32 92 (omega arith) in
    let at_expiry : get_u64 (drop 100 (bytes ++ rest)) ≡ get_u64 (drop 100 bytes) =
      sym (get_u64-take (drop 100 (bytes ++ rest)))
      ∙ ap get_u64 (slice-append 100 8 bytes rest (omega (arith, h)))
      ∙ get_u64-take (drop 100 bytes) in
    let at_identifier = slice-append 44 16 bytes rest (omega (arith, h)) in
    let at_root = slice-append 60 32 bytes rest (omega (arith, h)) in
    let at_status : byte_at (bytes ++ rest) 96 ≡ byte_at bytes 96 =
      get_or-append_lt bytes rest 96 0 (omega (arith, h)) in
    λ k. record {
      ready = true;
      version = at_version k;
      suite_id = at_suite k;
      status = at_status k;
      expiry_unix = at_expiry k;
      identifier = at_identifier k;
      root = at_root k;
    }

module _ (tag : List ℕ → List ℕ) (digest : (bytes : List ℕ) → IsDigest (tag bytes)) (op : ℕ)
    (identity : List ℕ) (version : ℕ) (row : RootRow) (id_size : length identity ≡ 32)
    (fits : IsRow row) where
  abbrev fields : List (ℕ × ℕ × List ℕ)
  fields = root_fields op identity version row

  pub root_sized : Sized (padded fields)
  root_sized = Sized-padded fields (
    refl,
    (
      refl,
      (
        id_size,
        (
          length-put_u32 version,
          (
            fits.identifier_size,
            (
              fits.root_size,
              (length-put_u32 row.suite_id, (refl, (length-put_u64 row.expiry_unix, tt))),
            ),
          ),
        ),
      ),
    ),
  )

  pub root_whole : Sized (packet_fields tag fields 0)
  root_whole = packet_sized fields 0 140 root_sized refl tag digest

  -- A root record is read as it was written.
  pub record_in-packet : version < 2 ^ 32 → record_in (packet tag fields 0) ≡ record_of version row
  record_in-packet hv =
      let p = packet tag fields 0 in
      let at_version = word-packet tag fields 0 root_whole 7 40 version refl refl hv in
      let at_identifier =
        slice-packet tag fields 0 root_whole 9 44 16 row.identifier refl refl
          fits.identifier_size in
      let at_root =
        slice-packet tag fields 0 root_whole 11 60 32 row.root refl refl fits.root_size in
      let at_suite =
        word-packet tag fields 0 root_whole 13 92 row.suite_id refl refl fits.suite_fits in
      let at_status = byte-packet tag fields 0 root_whole 15 96 row.status refl refl in
      let at_expiry : get_u64 (drop 100 p) ≡ row.expiry_unix =
        sym (get_u64-take (drop 100 p))
        ∙ ap get_u64 (
            slice-packet tag fields 0 root_whole 17 100 8 (put_u64 row.expiry_unix) refl refl
              (length-put_u64 row.expiry_unix)
            ∙ sym (append-nil (put_u64 row.expiry_unix)))
        ∙ get_u64-put_u64 row.expiry_unix [] fits.expiry_fits tt in
      λ k. record {
        ready = true;
        version = at_version k;
        suite_id = at_suite k;
        status = at_status k;
        expiry_unix = at_expiry k;
        identifier = at_identifier k;
        root = at_root k;
      }

module _ (w : WolfCrypt) (documented : IsDocumented w) (tag : List ℕ → List ℕ)
    (agrees : Agrees w tag) (c : Client) (sound : IsClient c) (device : IsIdentity c.device_id)
    (peer : IsIdentity c.peer_id) (version : ℕ) (version_fits : version < 2 ^ 32) (row : RootRow)
    (fits : IsRow row) where
  abbrev answer_fields : List (ℕ × ℕ × List ℕ)
  answer_fields = root_fields op_root_record c.peer_id version row

  -- The ledger's answer to the query for the peer's root.
  abbrev pub root_record : List ℕ
  root_record = packet tag answer_fields 0

  answer_sized : Sized (padded answer_fields)
  answer_sized = root_sized tag agrees.digest op_root_record c.peer_id version row peer.size fits

  answer_whole : Sized (packet_fields tag answer_fields 0)
  answer_whole = root_whole tag agrees.digest op_root_record c.peer_id version row peer.size fits

  answer_long : length root_record ≡ 140
  answer_long = length-packet answer_fields 0 140 answer_sized refl tag agrees.digest

  pub root_record-IsPacket : IsPacket w root_record
  root_record-IsPacket =
      packet-IsPacket w tag agrees op_root_record 140 0 c.peer_id
        ((0, 4, put_u32 version)
          ∷ (0, 16, row.identifier)
          ∷ (0, 32, row.root)
          ∷ (0, 4, put_u32 row.suite_id)
          ∷ (0, 1, row.status ∷ [])
          ∷ (3, 8, put_u64 row.expiry_unix)
          ∷ [])
        answer_sized refl (omega arith) (omega arith) (omega arith) peer.bytes
        (
          put_u32-IsByte version,
          (
            fits.identifier_bytes,
            (
              fits.root_bytes,
              (
                put_u32-IsByte row.suite_id,
                ((fits.status_fits, tt), (put_u64-IsByte row.expiry_unix, tt)),
              ),
            ),
          ),
        )

  answer_taken :
      verdict_on (root_awaited version) root_record (length root_record)
      ≡ taken (length root_record)
  unfolding verdict_on
  answer_taken =
      rw
        (
          byte-packet tag answer_fields 0 answer_whole 3 4 op_root_record refl refl,
          word-packet tag answer_fields 0 answer_whole 7 40 version refl refl version_fits,
          ==_refl version,
        )
        refl

  root_query_sent :
      root_query w c version
      ≡ some (
          packet tag
            (head_fields op_get_root c.device_id
              ((0, 32, c.peer_id) ∷ (0, 4, put_u32 version) ∷ []))
            0)
  unfolding root_query get_root_body
  root_query_sent =
      with_tag-packet
        (head_fields op_get_root c.device_id ((0, 32, c.peer_id) ∷ (0, 4, put_u32 version) ∷ [])) 0
        108
        (Sized-padded
          (head_fields op_get_root c.device_id ((0, 32, c.peer_id) ∷ (0, 4, put_u32 version) ∷ []))
          (refl, (refl, (device.size, (peer.size, (length-put_u32 version, tt))))))
        refl w tag agrees (omega arith)

  root_round-reply :
      (r : Option ℕ × Client) (rest : Option PeerPublicRecord × Client)
      → r.0 ≡ some (length root_record)
      → take (length root_record) r.1.buffer ≡ root_record
      → Keeps c r.1
      → (root_round r rest).0 ≡ some (record_of version row)
  root_round-reply (none, c') rest got held keeps = absurd (cc (got))
  root_round-reply (some n, c') rest got held keeps =
      let count : n ≡ 140 = some-injective got ∙ answer_long in
      let parts : c'.buffer ≡ root_record ++ drop (length root_record) c'.buffer =
        sym (take-append-drop (length root_record) c'.buffer)
        ∙ ap (λ t. t ++ drop (length root_record) c'.buffer) held in
      let owner : slice 8 32 c'.buffer ≡ c.peer_id =
        ap (slice 8 32) parts
        ∙ slice-append 8 32 root_record (drop (length root_record) c'.buffer)
            (omega (arith, answer_long))
        ∙ slice-packet tag answer_fields 0 answer_whole 5 8 32 c.peer_id refl refl peer.size in
      let same : constant_time_equal (drop 8 c'.buffer) c'.peer_id 32 ≡ true =
        constant_time_equal-take (drop 8 c'.buffer) c'.peer_id 32
          (omega (arith, length-drop 8 c'.buffer, keeps.sound.size))
          (omega (arith, ap length keeps.peer_id, peer.size))
          (owner
            ∙ sym keeps.peer_id
            ∙ sym (take-all 32 c'.peer_id (omega (arith, ap length keeps.peer_id, peer.size)))) in
      rw ((==_iff n 140).1 count, same)
        (ap some (
          ap record_in parts
          ∙ record_in-append root_record (drop (length root_record) c'.buffer) answer_long
          ∙ record_in-packet tag agrees.digest op_root_record c.peer_id version row peer.size fits
              version_fits))

  -- The root record of the ledger, in the first round, gives its row.
  pub fetch_peer_root-reply :
      (attempts : ℕ → ℕ → Attempt)
      → IsReached w (root_awaited version) c.gcs_ip c.gcs_port root_record (attempts 0)
      → (fetch_peer_root w version attempts c).0 ≡ some (record_of version row)
  unfolding fetch_peer_root fetch_root_loop
  fetch_peer_root-reply attempts reached =
      let request =
        packet tag
          (head_fields op_get_root c.device_id ((0, 32, c.peer_id) ∷ (0, 4, put_u32 version) ∷ []))
          0 in
      let (got, held, keeps) =
        send_and_receive-Got w documented (root_awaited version) c.gcs_ip c.gcs_port root_record
          root_record-IsPacket answer_taken request (attempts 0) reached c sound refl refl in
      let r = send_and_receive w (root_awaited version) request (attempts 0) c in
      rw (root_query_sent, fetch_peer_root)
        (root_round-reply r (fetch_root_loop w version request attempts 119 1 r.1) got held keeps)

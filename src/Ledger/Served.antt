-- ===== src/Ledger/Served.antt =====
-- gcs_ledger_server.py: what the server makes of the client's requests for paths.
use post_quantum_uav_uav.Prelude.{
  ℕ, ◌+◌, ◌^◌, ◌<◌, ◌≡◌, refl, ap, ◌∙◌, true, false, some, none, Option, List, [], ◌∷◌, length,
  ==_refl, arith, lt→ltb, ltb-false, same_bytes_refl, same_bytes→eq, if-cases, padded, Sized, total,
  Sized-padded,
}
use post_quantum_uav_uav.Codec.{put_u32}
use post_quantum_uav_uav.Codec.Integers.{length-put_u32}
use post_quantum_uav_uav.Crypto.Sha.{IsDigest}
use post_quantum_uav_uav.Ledger.Wire.{magic, op_enroll_path, op_get_path, op_path_record, op_ack}
use post_quantum_uav_uav.Ledger.Server.{
  Tables, verify_tag, parse_path_record, parse_get_path, build_ack, build_path_response,
  handle_packet, upsert_path, path_reply, is_same_path,
}
use post_quantum_uav_uav.Ledger.Layout.{
  packet, packet_fields, packet-sealed, packet_sized, length-packet, tagged-packet, slice-packet,
  word-packet, byte-packet,
}

abbrev pub head_fields : ℕ → List ℕ → List (ℕ × ℕ × List ℕ) → List (ℕ × ℕ × List ℕ)
head_fields op identity fields = (0, 4, magic) ∷ (0, 1, op ∷ []) ∷ (3, 32, identity) ∷ fields

-- A path with its owner, version and index: ENROLL_PATH and PATH_RECORD.
abbrev pub path_fields : ℕ → List ℕ → ℕ → ℕ → List ℕ → List (ℕ × ℕ × List ℕ)
path_fields op identity version q path =
    head_fields op identity ((0, 4, put_u32 version) ∷ (0, 4, put_u32 q) ∷ (0, 320, path) ∷ [])

-- GET_PATH
abbrev pub path_query_fields : List ℕ → List ℕ → ℕ → ℕ → List (ℕ × ℕ × List ℕ)
path_query_fields device_id peer_id version q =
    head_fields op_get_path device_id
      ((0, 32, peer_id) ∷ (0, 4, put_u32 version) ∷ (0, 4, put_u32 q) ∷ [])

-- ACK and NOT_FOUND
abbrev pub ack_fields : ℕ → List ℕ → ℕ → ℕ → ℕ → List (ℕ × ℕ × List ℕ)
ack_fields op identity version q status =
    head_fields op identity ((0, 4, put_u32 version) ∷ (0, 4, put_u32 q) ∷ (0, 1, status ∷ []) ∷ [])

module _ (tag : List ℕ → List ℕ) (digest : (bytes : List ℕ) → IsDigest (tag bytes)) where
  verify_tag-packet :
      (fields : List (ℕ × ℕ × List ℕ)) (trail n : ℕ)
      → Sized (padded fields)
      → total (padded fields) + trail + 32 ≡ n
      → verify_tag tag (packet tag fields trail) ≡ true
  unfolding verify_tag
  verify_tag-packet fields trail n sized size =
      rw
        (
          ltb-false (length (packet tag fields trail)) 32
              (omega (arith, length-packet fields trail n sized size tag digest)),
          packet-sealed fields trail n sized size tag digest,
        )
        (same_bytes_refl _)

  module _ (op : ℕ) (identity path : List ℕ) (version q : ℕ) (id_size : length identity ≡ 32)
      (path_size : length path ≡ 320) where
    abbrev fields : List (ℕ × ℕ × List ℕ)
    fields = path_fields op identity version q path

    pub path_sized : Sized (padded fields)
    path_sized =
        Sized-padded fields
          (refl, (refl, (id_size, (length-put_u32 version, (length-put_u32 q, (path_size, tt))))))

    whole : Sized (packet_fields tag fields 0)
    whole = packet_sized fields 0 400 path_sized refl tag digest

    -- The server reads an enrolment as it was written.
    pub parse_path_record-packet :
        op ≡ op_enroll_path
        → version < 2 ^ 32
        → q < 1024
        → parse_path_record tag (packet tag fields 0) ≡ some (identity, version, q, path)
    unfolding parse_path_record
    parse_path_record-packet enroll hv hq =
        let named = slice-packet tag fields 0 whole 1 0 4 magic refl refl refl in
        let kind = byte-packet tag fields 0 whole 3 4 op refl refl ∙ enroll in
        let owner = slice-packet tag fields 0 whole 5 8 32 identity refl refl id_size in
        let at_version = word-packet tag fields 0 whole 7 40 version refl refl hv in
        let at_q = word-packet tag fields 0 whole 9 44 q refl refl (omega arith) in
        let at_path = slice-packet tag fields 0 whole 11 48 320 path refl refl path_size in
        rw
          (
            length-packet fields 0 400 path_sized refl tag digest,
            named,
            same_bytes_refl magic,
            kind,
            verify_tag-packet fields 0 400 path_sized refl,
            owner,
            at_version,
            at_q,
            lt→ltb q 1024 hq,
            at_path,
          )
          refl

    -- It stores the path and acknowledges it.
    pub handle_packet-enrolment :
        (tables : Tables)
        → tables.running ≡ true
        → op ≡ op_enroll_path
        → version < 2 ^ 32
        → q < 1024
        → handle_packet tag tables (packet tag fields 0) ≡ (
          some (build_ack tag op_ack identity version q 0),
          upsert_path tables identity version q path,
        )
    unfolding handle_packet
    handle_packet-enrolment tables running enroll hv hq =
        rw
          (
            running,
            length-packet fields 0 400 path_sized refl tag digest,
            slice-packet tag fields 0 whole 1 0 4 magic refl refl refl,
            same_bytes_refl magic,
            byte-packet tag fields 0 whole 3 4 op refl refl ∙ enroll,
            parse_path_record-packet enroll hv hq,
          )
          refl

  module _ (device_id peer_id : List ℕ) (version q : ℕ) (device_size : length device_id ≡ 32)
      (peer_size : length peer_id ≡ 32) where
    abbrev query : List (ℕ × ℕ × List ℕ)
    query = path_query_fields device_id peer_id version q

    pub query_sized : Sized (padded query)
    query_sized =
        Sized-padded query (
          refl,
          (refl, (device_size, (peer_size, (length-put_u32 version, (length-put_u32 q, tt))))),
        )

    query_whole : Sized (packet_fields tag query 0)
    query_whole = packet_sized query 0 112 query_sized refl tag digest

    parse_get_path-packet :
        version < 2 ^ 32
        → q < 1024
        → parse_get_path tag (packet tag query 0) ≡ some (peer_id, version, q)
    unfolding parse_get_path
    parse_get_path-packet hv hq =
        rw
          (
            length-packet query 0 112 query_sized refl tag digest,
            slice-packet tag query 0 query_whole 1 0 4 magic refl refl refl,
            same_bytes_refl magic,
            byte-packet tag query 0 query_whole 3 4 op_get_path refl refl,
            verify_tag-packet query 0 112 query_sized refl,
            slice-packet tag query 0 query_whole 7 40 32 peer_id refl refl peer_size,
            word-packet tag query 0 query_whole 9 72 version refl refl hv,
            word-packet tag query 0 query_whole 11 76 q refl refl (omega arith),
            lt→ltb q 1024 hq,
          )
          refl

    -- The server answers a query from its table, and keeps it.
    pub handle_packet-query :
        (tables : Tables)
        → tables.running ≡ true
        → version < 2 ^ 32
        → q < 1024
        → handle_packet tag tables (packet tag query 0)
          ≡ (some (path_reply tag peer_id version q (tables.get_path peer_id version q)), tables)
    unfolding handle_packet
    handle_packet-query tables running hv hq =
        rw
          (
            running,
            length-packet query 0 112 query_sized refl tag digest,
            slice-packet tag query 0 query_whole 1 0 4 magic refl refl refl,
            same_bytes_refl magic,
            byte-packet tag query 0 query_whole 3 4 op_get_path refl refl,
            parse_get_path-packet hv hq,
          )
          refl

  -- The server's replies as packets.
  pub build_path_response-packet :
      (identity path : List ℕ) (version q : ℕ)
      → length identity ≡ 32
      → length path ≡ 320
      → build_path_response tag identity version q path
        ≡ packet tag (path_fields op_path_record identity version q path) 0
  unfolding build_path_response
  build_path_response-packet identity path version q hi hp =
      tagged-packet (path_fields op_path_record identity version q path) 0 400
        (path_sized op_path_record identity path version q hi hp) refl tag digest

  pub ack_sized :
      (op : ℕ) (identity : List ℕ) (version q status : ℕ)
      → length identity ≡ 32
      → Sized (padded (ack_fields op identity version q status))
  ack_sized op identity version q status hi =
      Sized-padded (ack_fields op identity version q status)
        (refl, (refl, (hi, (length-put_u32 version, (length-put_u32 q, (refl, tt))))))

  pub build_ack-packet :
      (op : ℕ) (identity : List ℕ) (version q status : ℕ)
      → length identity ≡ 32
      → build_ack tag op identity version q status
        ≡ packet tag (ack_fields op identity version q status) 3
  unfolding build_ack
  build_ack-packet op identity version q status hi =
      tagged-packet (ack_fields op identity version q status) 3 84
        (ack_sized op identity version q status hi) refl tag digest

-- What was stored is there.
pub get_path-upsert_path :
    (tables : Tables) (device_id : List ℕ) (version q : ℕ) (path : List ℕ)
    → (upsert_path tables device_id version q path).get_path device_id version q ≡ some path
unfolding upsert_path
get_path-upsert_path tables device_id version q path =
    if-cases (λ (t : Tables). t.get_path device_id version q ≡ some path)
      (is_same_path path (tables.get_path device_id version q)) _ _
      (λ same. is_same_path-true path (tables.get_path device_id version q) same)
      (λ other. rw (same_bytes_refl device_id, ==_refl version, ==_refl q) refl)
  where
    is_same_path-true :
        (path : List ℕ) (old : Option (List ℕ)) → is_same_path path old ≡ true → old ≡ some path
    is_same_path-true path none h = absurd (cc (h))
    is_same_path-true path (some old) h = ap some (same_bytes→eq old path h)

-- A service that has ended answers nothing, and its tables stay.
pub handle_packet_ended :
    (tag : List ℕ → List ℕ) (tables : Tables) (packet : List ℕ)
    → tables.running ≡ false
    → handle_packet tag tables packet ≡ (none, tables)
unfolding handle_packet
handle_packet_ended tag tables packet ended = rw ended refl

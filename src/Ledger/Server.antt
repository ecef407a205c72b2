-- ===== src/Ledger/Server.antt =====
-- laptop_server/gcs_ledger_server.py: the ledger's answers. Its two tables are functions from their keys,
-- and `tag` is Python's HMAC with LAB_KEY. A packet whose parser raises ValueError gets no answer; an
-- expiry that SQLite cannot hold raises OverflowError, which `main` does not catch, and the service ends.
-- The audit file and the sources' addresses are left out.
use post_quantum_uav_uav.Prelude.{
  ℕ, ◌-◌, ◌^◌, Bool, true, false, not, ◌&&◌, ◌||◌, Option, none, some, List, [], ◌∷◌, ltb, leb,
  ◌==◌, if◌then◌else◌, length, take, drop, slice, replicate, write_at, write_all, same_bytes, guard,
  ◌>>=◌, ◌>>◌,
}
use post_quantum_uav_uav.Codec.{put_u32, put_u64, get_u32, get_u64, byte_at}
use post_quantum_uav_uav.Ledger.Wire.{
  header, magic, op_enroll_root, op_enroll_path, op_get_root, op_get_path, op_root_record,
  op_path_record, op_ack, op_not_found, root_record_bytes, path_record_bytes, get_root_bytes,
  get_path_bytes, ack_bytes,
}

-- A row of `credential_roots` without its key.
pub record RootRow : Type 0 where
  pub identifier : List ℕ
  pub root : List ℕ
  pub suite_id : ℕ
  pub status : ℕ
  pub expiry_unix : ℕ

-- `credential_roots` and `lms_paths`, and `running` of `main`.
pub record Tables : Type 0 where
  pub get_root : List ℕ → ℕ → Option RootRow
  pub get_path : List ℕ → ℕ → ℕ → Option (List ℕ)
  pub running : Bool

abbrev pub empty_tables : Tables
empty_tables = record {
  get_root = λ device version. none;
  get_path = λ device version q. none;
  running = true;
}

abbrev pub is_same_row : RootRow → Option RootRow → Bool
is_same_row new none = false
is_same_row new (some old) =
    same_bytes old.identifier new.identifier
    && same_bytes old.root new.root
    && (old.suite_id == new.suite_id)
    && (old.status == new.status)
    && (old.expiry_unix == new.expiry_unix)

-- `none`: SQLite's integers have 64 bits and a sign, and `execute` raises OverflowError.
unfoldable pub upsert_root : Tables → List ℕ → ℕ → RootRow → Option Tables
upsert_root tables device_id version row =
    if is_same_row row (tables.get_root device_id version)
    then some tables
    else if leb (2 ^ 63) row.expiry_unix
    then none
    else some (record tables {
      get_root = λ device v.
          if same_bytes device device_id && (v == version)
          then some row
          else tables.get_root device v;
    })

abbrev pub is_same_path : List ℕ → Option (List ℕ) → Bool
is_same_path new none = false
is_same_path new (some old) = same_bytes old new

unfoldable pub upsert_path : Tables → List ℕ → ℕ → ℕ → List ℕ → Tables
upsert_path tables device_id version q path =
    if is_same_path path (tables.get_path device_id version q) then tables else record tables {
      get_path = λ device v i.
          if same_bytes device device_id && (v == version) && (i == q)
          then some path
          else tables.get_path device v i;
    }

-- The head that each parser tests first.
abbrev is_format : ℕ → ℕ → List ℕ → Bool
is_format size op packet =
    (length packet == size) && same_bytes (take 4 packet) magic && (byte_at packet 4 == op)

module _ (tag : List ℕ → List ℕ) where
  unfoldable pub verify_tag : List ℕ → Bool
  verify_tag packet =
      if ltb (length packet) 32
      then false
      else same_bytes (drop (length packet - 32) packet) (tag (take (length packet - 32) packet))

  unfoldable pub parse_root_record : List ℕ → Option (List ℕ × ℕ × RootRow)
  parse_root_record packet = do
    guard (is_format root_record_bytes op_enroll_root packet)
    guard (verify_tag packet)
    guard (leb (byte_at packet 96) 3)
    some (
      slice 8 32 packet,
      get_u32 (drop 40 packet),
      record {
        identifier = slice 44 16 packet;
        root = slice 60 32 packet;
        suite_id = get_u32 (drop 92 packet);
        status = byte_at packet 96;
        expiry_unix = get_u64 (drop 100 packet);
      },
    )

  unfoldable pub parse_path_record : List ℕ → Option (List ℕ × ℕ × ℕ × List ℕ)
  parse_path_record packet = do
    guard (is_format path_record_bytes op_enroll_path packet)
    guard (verify_tag packet)
    guard (ltb (get_u32 (drop 44 packet)) 1024)
    some
        (slice 8 32 packet, get_u32 (drop 40 packet), get_u32 (drop 44 packet), slice 48 320 packet)

  -- The target and the version; the requester is only printed.
  unfoldable pub parse_get_root : List ℕ → Option (List ℕ × ℕ)
  parse_get_root packet = do
    guard (is_format get_root_bytes op_get_root packet)
    guard (verify_tag packet)
    some (slice 40 32 packet, get_u32 (drop 72 packet))

  unfoldable pub parse_get_path : List ℕ → Option (List ℕ × ℕ × ℕ)
  parse_get_path packet = do
    guard (is_format get_path_bytes op_get_path packet)
    guard (verify_tag packet)
    guard (ltb (get_u32 (drop 76 packet)) 1024)
    some (slice 40 32 packet, get_u32 (drop 72 packet), get_u32 (drop 76 packet))

  -- `packet[-TAG_BYTES:] = compute_tag(packet[:-TAG_BYTES])`
  unfoldable pub tagged : ℕ → List ℕ → List ℕ
  tagged size packet = write_at (size - 32) (tag (take (size - 32) packet)) packet

  -- `build_ack` and `build_not_found`
  unfoldable pub build_ack : ℕ → List ℕ → ℕ → ℕ → ℕ → List ℕ
  build_ack op identity version q status = tagged ack_bytes (
      write_all
        (header op identity ((40, put_u32 version) ∷ (44, put_u32 q) ∷ (48, status ∷ []) ∷ []))
        (replicate ack_bytes 0))

  unfoldable pub build_root_response : List ℕ → ℕ → RootRow → List ℕ
  build_root_response device_id version row = tagged root_record_bytes (
      write_all
        (header op_root_record device_id (
          (40, put_u32 version)
          ∷ (44, row.identifier)
          ∷ (60, row.root)
          ∷ (92, put_u32 row.suite_id)
          ∷ (96, row.status ∷ [])
          ∷ (100, put_u64 row.expiry_unix)
          ∷ []))
        (replicate root_record_bytes 0))

  unfoldable pub build_path_response : List ℕ → ℕ → ℕ → List ℕ → List ℕ
  build_path_response device_id version q path = tagged path_record_bytes (
      write_all
        (header op_path_record device_id
          ((40, put_u32 version) ∷ (44, put_u32 q) ∷ (48, path) ∷ []))
        (replicate path_record_bytes 0))

  abbrev pub root_reply : List ℕ → ℕ → Option RootRow → List ℕ
  root_reply target version none = build_ack op_not_found target version 0 1
  root_reply target version (some row) = build_root_response target version row

  abbrev pub path_reply : List ℕ → ℕ → ℕ → Option (List ℕ) → List ℕ
  path_reply target version q none = build_ack op_not_found target version q 1
  path_reply target version q (some path) = build_path_response target version q path

  -- ValueError is caught.
  abbrev pub answer : Tables → Option (Option (List ℕ) × Tables) → Option (List ℕ) × Tables
  answer tables none = (none, tables)
  answer tables (some result) = result

  -- OverflowError is not: the `finally` closes the socket and the ledger.
  abbrev pub root_answer : List ℕ → Tables → Option Tables → Option (List ℕ) × Tables
  root_answer ack tables none = (none, record tables { running = false })
  root_answer ack tables (some next) = (some ack, next)

  abbrev pub dispatch : ℕ → Tables → List ℕ → Option (Option (List ℕ) × Tables)
  dispatch op tables packet =
      if op == op_enroll_root
      then (parse_root_record packet >>= λ r.
          some (root_answer (build_ack op_ack r.0 r.1 0 0) tables (upsert_root tables r.0 r.1 r.2)))
      else if op == op_enroll_path
      then (parse_path_record packet >>= λ r.
          some (some (build_ack op_ack r.0 r.1 r.2 0), upsert_path tables r.0 r.1 r.2 r.3))
      else if op == op_get_root
      then (parse_get_root packet >>= λ r.
          some (some (root_reply r.0 r.1 (tables.get_root r.0 r.1)), tables))
      else if op == op_get_path
      then (parse_get_path packet >>= λ r.
          some (some (path_reply r.0 r.1 r.2 (tables.get_path r.0 r.1 r.2)), tables))
      else none

  -- The body of the loop of `main`: the reply to the sender, and the tables.
  unfoldable pub handle_packet : Tables → List ℕ → Option (List ℕ) × Tables
  handle_packet tables packet =
      if not tables.running
      then (none, tables)
      else if ltb (length packet) 5 || not (same_bytes (take 4 packet) magic)
      then (none, tables)
      else answer tables (dispatch (byte_at packet 4) tables packet)

-- ===== src/Ledger/Wire.antt =====
-- GcsLedgerClient.h and the requests of GcsLedgerClient.cpp: operations, sizes, the key of the tags and
-- the four packets that the client sends.
use post_quantum_uav_uav.Prelude.{
  ℕ, ◌-◌, Option, some, List, [], ◌∷◌, replicate, write_at, write_all, ◌>>=◌,
}
use post_quantum_uav_uav.Codec.{put_u32, put_u64}
use post_quantum_uav_uav.Crypto.{WolfCrypt, hmac_sha256, succeeded}

abbrev pub op_enroll_root : ℕ
op_enroll_root = 1

abbrev pub op_enroll_path : ℕ
op_enroll_path = 2

abbrev pub op_get_root : ℕ
op_get_root = 3

abbrev pub op_get_path : ℕ
op_get_path = 4

abbrev pub op_root_record : ℕ
op_root_record = 5

abbrev pub op_path_record : ℕ
op_path_record = 6

abbrev pub op_ack : ℕ
op_ack = 7

abbrev pub op_not_found : ℕ
op_not_found = 8

abbrev pub root_record_bytes : ℕ
root_record_bytes = 140

abbrev pub path_record_bytes : ℕ
path_record_bytes = 400

abbrev pub get_root_bytes : ℕ
get_root_bytes = 108

abbrev pub get_path_bytes : ℕ
get_path_bytes = 112

abbrev pub ack_bytes : ℕ
ack_bytes = 84

abbrev pub max_gcs_packet_bytes : ℕ
max_gcs_packet_bytes = path_record_bytes

abbrev pub hmac_bytes : ℕ
hmac_bytes = 32

-- "GCS2"
abbrev pub magic : List ℕ
magic = b'G' ∷ b'C' ∷ b'S' ∷ b'2' ∷ []

abbrev pub gcs_ledger_hmac_key : List ℕ
gcs_ledger_hmac_key =
    0x61 ∷ 0x94 ∷ 0x0d ∷ 0x2f ∷ 0x73 ∷ 0xe1 ∷ 0x48 ∷ 0xac ∷ 0xb5 ∷ 0x39 ∷ 0x8c ∷ 0x14 ∷ 0xd0 ∷ 0x6e
    ∷ 0x2a ∷ 0xf7 ∷ 0x83 ∷ 0x45 ∷ 0x1b ∷ 0xc9 ∷ 0x56 ∷ 0xaa ∷ 0x30 ∷ 0x7d ∷ 0x1e ∷ 0x68 ∷ 0xf2
    ∷ 0x04 ∷ 0x9b ∷ 0xcd ∷ 0x77 ∷ 0x35 ∷ []

-- The first fields of every packet: the magic bytes, the operation, and an identity.
abbrev pub header : ℕ → List ℕ → List (ℕ × List ℕ) → List (ℕ × List ℕ)
header op identity fields = (0, magic) ∷ (4, op ∷ []) ∷ (8, identity) ∷ fields

unfoldable pub root_record_body : List ℕ → ℕ → List ℕ → List ℕ → ℕ → ℕ → ℕ → List ℕ
root_record_body device_id version identifier root suite_id status expiry_unix =
    write_all
      (header op_enroll_root device_id (
        (40, put_u32 version)
        ∷ (44, identifier)
        ∷ (60, root)
        ∷ (92, put_u32 suite_id)
        ∷ (96, status ∷ [])
        ∷ (100, put_u64 expiry_unix)
        ∷ []))
      (replicate root_record_bytes 0)

unfoldable pub path_record_body : List ℕ → ℕ → ℕ → List ℕ → List ℕ
path_record_body device_id version q path =
    write_all
      (header op_enroll_path device_id ((40, put_u32 version) ∷ (44, put_u32 q) ∷ (48, path) ∷ []))
      (replicate path_record_bytes 0)

unfoldable pub get_root_body : List ℕ → List ℕ → ℕ → List ℕ
get_root_body device_id peer_id version =
    write_all (header op_get_root device_id ((40, peer_id) ∷ (72, put_u32 version) ∷ []))
      (replicate get_root_bytes 0)

unfoldable pub get_path_body : List ℕ → List ℕ → ℕ → ℕ → List ℕ
get_path_body device_id peer_id version q =
    write_all
      (header op_get_path device_id ((40, peer_id) ∷ (72, put_u32 version) ∷ (76, put_u32 q) ∷ []))
      (replicate get_path_bytes 0)

module _ (w : WolfCrypt) where
  unfoldable pub compute_tag : List ℕ → ℕ → Option (List ℕ)
  compute_tag bytes length_without_tag =
      succeeded (hmac_sha256 w (some gcs_ledger_hmac_key) 32 (some bytes) length_without_tag)

  -- `computeTag(request, size - HMAC_BYTES, request + size - HMAC_BYTES)`
  unfoldable pub with_tag : ℕ → List ℕ → Option (List ℕ)
  with_tag size request = compute_tag request (size - hmac_bytes) >>= λ tag.
      some (write_at (size - hmac_bytes) tag request)

-- ===== src/Ledger/Acknowledged.antt =====
-- GcsLedgerClient.cpp: enrolments that the ledger acknowledges.
use post_quantum_uav_uav.Prelude.{
  ℕ, ◌^◌, ◌<◌, ◌≡◌, refl, sym, ap, ◌∙◌, true, false, some, none, Option, List, [], ◌∷◌, ◌++◌,
  length, take, drop, ◌==◌, ==_refl, ==_iff, arith, padded, Sized, get_or-append_lt,
  take-append-drop,
}
use post_quantum_uav_uav.Codec.{byte_at, put_u32}
use post_quantum_uav_uav.Codec.Integers.{put_u32-IsByte}
use post_quantum_uav_uav.Crypto.{WolfCrypt, IsDocumented, uint32_max}
use post_quantum_uav_uav.Lms.Tree.{Lms, extract_path}
use post_quantum_uav_uav.Ledger.Wire.{op_ack, op_enroll_path, path_record_body}
use post_quantum_uav_uav.Ledger.Client.{Client, Attempt, taken, verdict_on, send_and_receive}
use post_quantum_uav_uav.Ledger.Enroll.{path_request, enroll_path, ack_for, is_acknowledged}
use post_quantum_uav_uav.Ledger.Heard.{IsClient, Keeps}
use post_quantum_uav_uav.Ledger.Deliver.{IsPacket}
use post_quantum_uav_uav.Ledger.Through.{IsReached, send_and_receive-Got}
use post_quantum_uav_uav.Ledger.Layout.{
  Agrees, packet, packet_fields, packet_sized, with_tag-packet, length-packet, word-packet,
  byte-packet,
}
use post_quantum_uav_uav.Ledger.Served.{ack_fields, ack_sized, path_fields, path_sized}
use post_quantum_uav_uav.Ledger.Exchange.{IsIdentity, packet-IsPacket}

-- The ledger's acknowledgement.
abbrev pub ack : (List ℕ → List ℕ) → List ℕ → ℕ → ℕ → List ℕ
ack tag identity version q = packet tag (ack_fields op_ack identity version q 0) 3

module _ (w : WolfCrypt) (documented : IsDocumented w) (tag : List ℕ → List ℕ)
    (agrees : Agrees w tag) (identity : List ℕ) (owner : IsIdentity identity) (version q : ℕ)
    (version_fits : version < 2 ^ 32) (q_fits : q < 1024) where
  sized : Sized (padded (ack_fields op_ack identity version q 0))
  sized = ack_sized tag agrees.digest op_ack identity version q 0 owner.size

  whole : Sized (packet_fields tag (ack_fields op_ack identity version q 0) 3)
  whole = packet_sized (ack_fields op_ack identity version q 0) 3 84 sized refl tag agrees.digest

  long : length (ack tag identity version q) ≡ 84
  long = length-packet (ack_fields op_ack identity version q 0) 3 84 sized refl tag agrees.digest

  pub ack-IsPacket : IsPacket w (ack tag identity version q)
  ack-IsPacket =
      packet-IsPacket w tag agrees op_ack 84 3 identity
        ((0, 4, put_u32 version) ∷ (0, 4, put_u32 q) ∷ (0, 1, 0 ∷ []) ∷ []) sized refl (omega arith)
        (omega arith) (omega arith) owner.bytes
        (put_u32-IsByte version, (put_u32-IsByte q, (omega arith, tt)))

  not_max : (q == uint32_max) ≡ false
  not_max = ground arith

  ack_taken :
      verdict_on
        (ack_for version q)
        (ack tag identity version q)
        (length (ack tag identity version q))
      ≡ taken (length (ack tag identity version q))
  unfolding verdict_on
  ack_taken =
      let fields = ack_fields op_ack identity version q 0 in
      rw
        (
          byte-packet tag fields 3 whole 3 4 op_ack refl refl,
          word-packet tag fields 3 whole 7 40 version refl refl version_fits,
          word-packet tag fields 3 whole 9 44 q refl refl (omega arith),
          ==_refl version,
          not_max,
          ==_refl q,
        )
        refl

  -- A request that names no index takes the acknowledgement of any.
  pub ack_taken_any :
      verdict_on
        (ack_for version uint32_max)
        (ack tag identity version q)
        (length (ack tag identity version q))
      ≡ taken (length (ack tag identity version q))
  unfolding verdict_on
  ack_taken_any =
      let fields = ack_fields op_ack identity version q 0 in
      rw
        (
          byte-packet tag fields 3 whole 3 4 op_ack refl refl,
          word-packet tag fields 3 whole 7 40 version refl refl version_fits,
          ==_refl version,
        )
        refl

  pub is_acknowledged-ack :
      (r : Option ℕ × Client)
      → r.0 ≡ some (length (ack tag identity version q))
      → take (length (ack tag identity version q)) r.1.buffer ≡ ack tag identity version q
      → is_acknowledged r ≡ true
  is_acknowledged-ack (none, c) got held = absurd (cc (got))
  is_acknowledged-ack (some n, c) got held =
      let count : n ≡ length (ack tag identity version q) = cc (got) in
      let status : byte_at c.buffer 48 ≡ 0 =
        ap (λ t. byte_at t 48)
          (sym (take-append-drop (length (ack tag identity version q)) c.buffer)
            ∙ ap (λ t. t ++ drop (length (ack tag identity version q)) c.buffer) held)
        ∙ get_or-append_lt (ack tag identity version q)
            (drop (length (ack tag identity version q)) c.buffer) 48 0 (omega (arith, long))
        ∙ byte-packet tag (ack_fields op_ack identity version q 0) 3 whole 11 48 0 refl refl in
      rw ((==_iff n 84).1 (count ∙ long), status) refl

  -- One path that is acknowledged.
  pub enroll_path-ack :
      (lms : Lms) (path : List ℕ) (a : Client) (attempts : ℕ → Attempt)
      → IsClient a
      → a.device_id ≡ identity
      → extract_path lms q ≡ some path
      → length path ≡ 320
      → IsReached w (ack_for version q) a.gcs_ip a.gcs_port (ack tag identity version q) attempts
      → ((enroll_path w lms version q attempts a).0 ≡ true)
        × Keeps a (enroll_path w lms version q attempts a).1
  unfolding enroll_path path_request path_record_body
  enroll_path-ack lms path a attempts sound same own path_size reached =
      let fields = path_fields op_enroll_path a.device_id version q path in
      let id_size : length a.device_id ≡ 32 = ap length same ∙ owner.size in
      let sent =
        with_tag-packet fields 0 400
          (path_sized tag agrees.digest op_enroll_path a.device_id path version q id_size path_size)
          refl w tag agrees (omega arith) in
      let request = packet tag fields 0 in
      let (got, held, keeps) =
        send_and_receive-Got w documented (ack_for version q) a.gcs_ip a.gcs_port
          (ack tag identity version q) ack-IsPacket ack_taken request attempts reached a sound refl
          refl in
      rw (own, sent)
        (
          is_acknowledged-ack (send_and_receive w (ack_for version q) request attempts a) got held,
          keeps,
        )

-- ===== src/Ledger/RootAck.antt =====
-- GcsLedgerClient.cpp, enrollOwnRoot: an enrolment that the ledger acknowledges.
use post_quantum_uav_uav.Prelude.{ℕ, ◌^◌, ◌<◌, ◌≡◌, refl, true, some, List, arith}
use post_quantum_uav_uav.Crypto.{WolfCrypt, IsDocumented, uint32_max}
use post_quantum_uav_uav.Lms.Tree.{Lms, root}
use post_quantum_uav_uav.Ledger.Wire.{op_enroll_root, root_record_body}
use post_quantum_uav_uav.Ledger.Client.{Client, Attempt, send_and_receive}
use post_quantum_uav_uav.Ledger.Enroll.{root_request, enroll_own_root, ack_for}
use post_quantum_uav_uav.Ledger.Server.{RootRow}
use post_quantum_uav_uav.Ledger.Heard.{IsClient, Keeps}
use post_quantum_uav_uav.Ledger.Through.{IsReached, send_and_receive-Got}
use post_quantum_uav_uav.Ledger.Layout.{Agrees, packet, with_tag-packet}
use post_quantum_uav_uav.Ledger.Exchange.{IsIdentity}
use post_quantum_uav_uav.Ledger.Acknowledged.{ack, ack-IsPacket, ack_taken_any, is_acknowledged-ack}
use post_quantum_uav_uav.Ledger.RootReply.{root_fields, root_sized, IsRow}

module _ (w : WolfCrypt) (documented : IsDocumented w) (tag : List ℕ → List ℕ)
    (agrees : Agrees w tag) (a : Client) (owner : IsIdentity a.device_id) (version : ℕ)
    (version_fits : version < 2 ^ 32) (lms : Lms) (row : RootRow) (fits : IsRow row)
    (named : lms.identifier ≡ row.identifier) (built : root lms ≡ some row.root) where
  -- The packet that enrols the root.
  abbrev pub enrolment : List ℕ
  enrolment = packet tag (root_fields op_enroll_root a.device_id version row) 0

  pub root_request_sent :
      root_request w a lms version row.suite_id row.status row.expiry_unix ≡ some enrolment
  unfolding root_request root_record_body
  root_request_sent =
      rw (built, named)
        (with_tag-packet (root_fields op_enroll_root a.device_id version row) 0 140
          (root_sized tag agrees.digest op_enroll_root a.device_id version row owner.size fits) refl
          w tag agrees (omega arith))

  -- A root that the ledger acknowledges.
  pub enroll_own_root-ack :
      (attempts : ℕ → Attempt)
      → IsClient a
      → IsReached w
          (ack_for version uint32_max)
          a.gcs_ip
          a.gcs_port
          (ack tag a.device_id version 0)
          attempts
      → ((enroll_own_root w lms version row.suite_id row.status row.expiry_unix attempts a).0
          ≡ true)
        × Keeps a
            (enroll_own_root w lms version row.suite_id row.status row.expiry_unix attempts a).1
  unfolding enroll_own_root
  enroll_own_root-ack attempts sound reached =
      let (got, held, keeps) =
        send_and_receive-Got w documented (ack_for version uint32_max) a.gcs_ip a.gcs_port
          (ack tag a.device_id version 0)
          (ack-IsPacket w documented tag agrees a.device_id owner version 0 version_fits
            (omega arith))
          (ack_taken_any w documented tag agrees a.device_id owner version 0 version_fits
            (omega arith))
          enrolment attempts reached a sound refl refl in
      rw root_request_sent (
        is_acknowledged-ack w documented tag agrees a.device_id owner version 0 version_fits
            (omega arith) (send_and_receive w (ack_for version uint32_max) enrolment attempts a) got
            held,
        keeps,
      )

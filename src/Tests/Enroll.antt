-- ===== src/Tests/Enroll.antt =====
-- The enrolment of a tree's paths at concrete inputs.
use post_quantum_uav_uav.Prelude.{ℕ, ◌+◌, ◌<◌, ◌≡◌, refl, true, [], ◌∷◌, inl, arith}
use post_quantum_uav_uav.Lms.Tree.{fresh}
use post_quantum_uav_uav.Transport.Fragment.{quiet, datagram}
use post_quantum_uav_uav.Transport.Send.{sent}
use post_quantum_uav_uav.Ledger.Client.{Attempt}
use post_quantum_uav_uav.Ledger.Enroll.{ack_for, enroll_own_paths}
use post_quantum_uav_uav.Ledger.Through.{IsReached}
use post_quantum_uav_uav.Ledger.Acknowledged.{ack, ack-IsPacket}
use post_quantum_uav_uav.Ledger.OwnPaths.{enroll_own_paths-acknowledged}
use post_quantum_uav_uav.Tests.Toy.{toy, toy-IsDocumented}
use post_quantum_uav_uav.Tests.Lms.{identifier, seed, set_up, set_up_lem, finished, finished_lem}
use post_quantum_uav_uav.Tests.Ledger.{tag, toy-Agrees, uav, uav-IsClient, filled-IsIdentity}

-- The acknowledgements of the indices from 700, after silence and a stray datagram.
abbrev acks : ℕ → ℕ → Attempt
acks i j = record {
  answer = sent;
  arrivals =
      quiet
      ∷ datagram (1 ∷ 2 ∷ []) 8 8
      ∷ datagram (ack tag (uav 1).device_id 1 (700 + i)) 9 5001
      ∷ [];
}

acks-IsReached :
    (i : ℕ)
    → i < 3
    → IsReached toy (ack_for 1 (700 + i)) 9 5001 (ack tag (uav 1).device_id 1 (700 + i)) (acks i)
acks-IsReached i h = record {
  k = 0;
  tried = omega arith;
  sends = λ j. refl;
  holds_bytes = λ j. (
    tt,
    (
      (omega arith, (omega arith, tt)),
      (
        (ack-IsPacket toy toy-IsDocumented tag toy-Agrees (uav 1).device_id
            (filled-IsIdentity 1 (omega arith)) 1 (700 + i) (omega arith)
            (omega arith)).holds_bytes,
        tt,
      ),
    ),
  );
  noise_before = λ j h. absurd (omega arith);
  before = quiet ∷ datagram (1 ∷ 2 ∷ []) 8 8 ∷ [];
  after = [];
  noise = (tt, (inl (omega arith), tt));
  arrivals = refl;
}

enroll_own_paths-acknowledged_example :
    (enroll_own_paths toy finished 1 700 3 acks (uav 1)).0 ≡ true
enroll_own_paths-acknowledged_example =
    enroll_own_paths-acknowledged toy toy-IsDocumented tag toy-Agrees (uav 1).device_id
      (filled-IsIdentity 1 (omega arith)) 1 (omega arith) true fresh set_up finished identifier seed
      set_up_lem finished_lem 9 5001 700 acks (uav 1) 3 (uav-IsClient 1) refl refl refl
      (omega arith) (omega arith) acks-IsReached

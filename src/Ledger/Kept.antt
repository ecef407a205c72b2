-- ===== src/Ledger/Kept.antt =====
-- GcsLedgerClient.cpp: an enrolment leaves the client's addresses and identities alone.
use post_quantum_uav_uav.Prelude.{
  ℕ, zero, suc, ◌+◌, ◌%◌, ◌^◌, ◌||◌, Bool, true, false, Option, none, some, List, All, ltb, ◌==◌,
  ◌>>=◌, if-cases,
}
use post_quantum_uav_uav.Crypto.{WolfCrypt, uint32_max}
use post_quantum_uav_uav.Lms.Tree.{Lms, extract_path}
use post_quantum_uav_uav.Ledger.Client.{Client, Attempt, Awaited}
use post_quantum_uav_uav.Ledger.Enroll.{
  asked, ack_for, root_request, path_request, enroll_own_root, enroll_path, enroll_loop,
  enroll_own_paths, unless_failed,
}
use post_quantum_uav_uav.Ledger.Heard.{IsClient, Keeps, Keeps-refl, Keeps-trans, HoldsBytes}
use post_quantum_uav_uav.Ledger.Loop.{send_and_receive-Keeps}

module _ (w : WolfCrypt) where
  asked-Keeps :
      (request : Option (List ℕ)) (e : Awaited) (attempts : ℕ → Attempt) (c : Client)
      → IsClient c
      → ((i : ℕ) → All HoldsBytes (attempts i).arrivals)
      → Keeps c (asked w request e attempts c).1
  asked-Keeps none e attempts c sound held = Keeps-refl c sound
  asked-Keeps (some request) e attempts c sound held =
      send_and_receive-Keeps w e request attempts c sound held

  pub enroll_own_root-Keeps :
      (lms : Lms) (version suite_id status expiry_unix : ℕ) (attempts : ℕ → Attempt) (c : Client)
      → IsClient c
      → ((i : ℕ) → All HoldsBytes (attempts i).arrivals)
      → Keeps c (enroll_own_root w lms version suite_id status expiry_unix attempts c).1
  unfolding enroll_own_root
  enroll_own_root-Keeps lms version suite_id status expiry_unix attempts c sound held =
      asked-Keeps (root_request w c lms version suite_id status expiry_unix)
        (ack_for version uint32_max) attempts c sound held

  enroll_path-Keeps :
      (lms : Lms) (version q : ℕ) (attempts : ℕ → Attempt) (c : Client)
      → IsClient c
      → ((i : ℕ) → All HoldsBytes (attempts i).arrivals)
      → Keeps c (enroll_path w lms version q attempts c).1
  unfolding enroll_path
  enroll_path-Keeps lms version q attempts c sound held =
      asked-Keeps (extract_path lms q >>= λ path. path_request w c version q path)
        (ack_for version q) attempts c sound held

  unless_failed-Keeps :
      (c : Client) (r rest : Bool × Client)
      → Keeps c r.1
      → Keeps c rest.1
      → Keeps c (unless_failed r rest).1
  unless_failed-Keeps c (true, c') rest now later = later
  unless_failed-Keeps c (false, c') rest now later = now

  enroll_loop-Keeps :
      (lms : Lms) (version first_q : ℕ) (attempts : ℕ → ℕ → Attempt) (rounds i : ℕ) (c : Client)
      → IsClient c
      → ((i j : ℕ) → All HoldsBytes (attempts i j).arrivals)
      → Keeps c (enroll_loop w lms version first_q attempts rounds i c).1
  unfolding enroll_loop
  enroll_loop-Keeps lms version first_q attempts zero i c sound held = Keeps-refl c sound
  enroll_loop-Keeps lms version first_q attempts (suc rounds) i c sound held =
      let now = enroll_path w lms version ((first_q + i) % 2 ^ 32) (attempts i) c in
      let here =
        enroll_path-Keeps lms version ((first_q + i) % 2 ^ 32) (attempts i) c sound (held i) in
      let rest = enroll_loop w lms version first_q attempts rounds (i + 1) now.1 in
      unless_failed-Keeps c now rest here (
        Keeps-trans c now.1 rest.1 here
          (enroll_loop-Keeps lms version first_q attempts rounds (i + 1) now.1 here.sound held))

  pub enroll_own_paths-Keeps :
      (lms : Lms) (version first_q count : ℕ) (attempts : ℕ → ℕ → Attempt) (c : Client)
      → IsClient c
      → ((i j : ℕ) → All HoldsBytes (attempts i j).arrivals)
      → Keeps c (enroll_own_paths w lms version first_q count attempts c).1
  unfolding enroll_own_paths
  enroll_own_paths-Keeps lms version first_q count attempts c sound held =
      if-cases (λ (r : Bool × Client). Keeps c r.1)
        ((count == 0) || ltb 1024 ((first_q + count) % 2 ^ 32)) _ _ (λ out. Keeps-refl c sound)
        (λ within. enroll_loop-Keeps lms version first_q attempts count 0 c sound held)

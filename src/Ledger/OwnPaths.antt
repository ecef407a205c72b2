-- ===== src/Ledger/OwnPaths.antt =====
-- GcsLedgerClient.cpp, enrollOwnPaths: a run that the ledger acknowledges throughout.
use post_quantum_uav_uav.Prelude.{
  ℕ, zero, suc, ◌+◌, ◌%◌, ◌^◌, ◌≤◌, ◌<◌, ◌≡◌, refl, sym, ap, subst, ◌∙◌, Bool, true, false, some,
  List, ltb, ltb-false, ◌==◌, arith,
}
use post_quantum_uav_uav.Crypto.{WolfCrypt, IsDocumented}
use post_quantum_uav_uav.Lms.Tree.{Lms, initialize, build_tree}
use post_quantum_uav_uav.Lms.Sizes.{extract_path_total, length-extract_path}
use post_quantum_uav_uav.Ledger.Client.{Client, Attempt}
use post_quantum_uav_uav.Ledger.Enroll.{
  enroll_path, enroll_loop, enroll_own_paths, ack_for, unless_failed,
}
use post_quantum_uav_uav.Ledger.Heard.{IsClient, Keeps}
use post_quantum_uav_uav.Ledger.Through.{IsReached}
use post_quantum_uav_uav.Ledger.Layout.{Agrees}
use post_quantum_uav_uav.Ledger.Exchange.{IsIdentity}
use post_quantum_uav_uav.Ledger.Acknowledged.{ack, enroll_path-ack}

unless_failed-true : (r rest : Bool × Client) → r.0 ≡ true → unless_failed r rest ≡ rest
unless_failed-true (true, c) rest h = refl
unless_failed-true (false, c) rest h = absurd (cc (h))

module _ (w : WolfCrypt) (documented : IsDocumented w) (tag : List ℕ → List ℕ)
    (agrees : Agrees w tag) (identity : List ℕ) (owner : IsIdentity identity) (version : ℕ)
    (version_fits : version < 2 ^ 32) (allocated : Bool) (old lms built : Lms)
    (identifier seed : List ℕ)
    (set : initialize allocated old (some identifier) (some seed) ≡ (true, lms))
    (grown : build_tree w lms ≡ (true, built)) (gcs_ip gcs_port first_q : ℕ)
    (attempts : ℕ → ℕ → Attempt) where
  -- The acknowledgement of round `i` reaches the node.
  abbrev IsReachedAt : ℕ → Type 0
  IsReachedAt i =
      IsReached w (ack_for version (first_q + i)) gcs_ip gcs_port
        (ack tag identity version (first_q + i)) (attempts i)

  enroll_path-true :
      (c : Client) (q i : ℕ)
      → q < 1024
      → q ≡ (first_q + i) % 2 ^ 32
      → IsReached w (ack_for version q) gcs_ip gcs_port (ack tag identity version q) (attempts i)
      → IsClient c
      → c.device_id ≡ identity
      → c.gcs_ip ≡ gcs_ip
      → c.gcs_port ≡ gcs_port
      → let now = enroll_path w built version ((first_q + i) % 2 ^ 32) (attempts i) c in
        (now.0 ≡ true) × Keeps c now.1
  enroll_path-true c q i fits same reached sound id ip port =
      let (path, found) =
        extract_path_total w allocated old lms built identifier seed q set grown fits in
      let size =
        length-extract_path w documented allocated old lms built identifier seed q path set grown
          found in
      subst
        (λ k.
          let now = enroll_path w built version k (attempts i) c in (now.0 ≡ true) × Keeps c now.1)
        same
        (enroll_path-ack w documented tag agrees identity owner version q version_fits fits built
          path c (attempts i) sound id found size
          (subst
            (λ k.
              IsReached w (ack_for version q) k c.gcs_port (ack tag identity version q)
                (attempts i))
            (sym ip)
            (subst
              (λ k.
                IsReached w (ack_for version q) gcs_ip k (ack tag identity version q) (attempts i))
              (sym port) reached)))

  enroll_loop-true :
      (rounds i count : ℕ) (c : Client)
      → rounds + i ≡ count
      → first_q + count ≤ 1024
      → ((j : ℕ) → j < count → IsReachedAt j)
      → IsClient c
      → c.device_id ≡ identity
      → c.gcs_ip ≡ gcs_ip
      → c.gcs_port ≡ gcs_port
      → (enroll_loop w built version first_q attempts rounds i c).0 ≡ true
  unfolding enroll_loop
  enroll_loop-true zero i count c left fits reached sound id ip port = refl
  enroll_loop-true (suc rounds) i count c left fits reached sound id ip port =
      let here : i < count = omega (arith, left) in
      let within : first_q + i < 1024 = omega (arith, left, fits) in
      let (now, keeps) =
        enroll_path-true c (first_q + i) i within (omega (arith, within)) (reached i here) sound id
          ip port in
      let r = enroll_path w built version ((first_q + i) % 2 ^ 32) (attempts i) c in
      ap (λ (o : Bool × Client). o.0)
        (unless_failed-true r (enroll_loop w built version first_q attempts rounds (i + 1) r.1) now)
      ∙ enroll_loop-true rounds (i + 1) count r.1 (omega (arith, left)) fits reached keeps.sound
          (keeps.device_id ∙ id) (keeps.gcs_ip ∙ ip) (keeps.gcs_port ∙ port)

  -- Where a node whose tree is built enrols indices of its tree, and the ledger's acknowledgement of
  -- each one reaches it in one of that request's four attempts, whatever noise comes before it,
  -- `enrollOwnPaths` reports success.
  pub enroll_own_paths-acknowledged :
      (c : Client) (count : ℕ)
      → IsClient c
      → c.device_id ≡ identity
      → c.gcs_ip ≡ gcs_ip
      → c.gcs_port ≡ gcs_port
      → 0 < count
      → first_q + count ≤ 1024
      → ((j : ℕ) → j < count → IsReachedAt j)
      → (enroll_own_paths w built version first_q count attempts c).0 ≡ true
  unfolding enroll_own_paths
  enroll_own_paths-acknowledged c count sound id ip port some_count fits reached =
      let some : (count == 0) ≡ false = ground arith in
      let within : ltb 1024 ((first_q + count) % 2 ^ 32) ≡ false =
        ltb-false 1024 ((first_q + count) % 2 ^ 32) (omega (arith, fits)) in
      rw (some, within)
        (enroll_loop-true count 0 count c (omega arith) fits reached sound id ip port)

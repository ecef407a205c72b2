-- ===== src/Tests/Lms.antt =====
-- The signature scheme at concrete inputs.
use post_quantum_uav_uav.Prelude.{
  ℕ, ◌≡◌, refl, ap, true, some, List, [], ◌∷◌, All-replicate, replicate, length-replicate, arith,
}
use post_quantum_uav_uav.Codec.{IsByte}
use post_quantum_uav_uav.Crypto.{secure_zero}
use post_quantum_uav_uav.Lms.Tree.{
  Lms, fresh, node_at, initialize, build_tree, root, path_loop, extract_path, sign, verify,
}
use post_quantum_uav_uav.Lms.Ots.{coefficient_w4, checksum_loop}
use post_quantum_uav_uav.Lms.Checksum.{with_checksum_undominated}
use post_quantum_uav_uav.Lms.Merkle.{IsBuilt}
use post_quantum_uav_uav.Lms.SignVerify.{built_tree, verify-sign}
use post_quantum_uav_uav.Lms.Total.{build_tree_total, sign_total}
use post_quantum_uav_uav.Tests.Toy.{toy, toy-IsDocumented, toy-IsReliable}

abbrev pub identifier : List ℕ
identifier = replicate 16 3

abbrev pub seed : List ℕ
seed = replicate 32 5

abbrev drawn : List ℕ
drawn = replicate 32 9

abbrev message : List ℕ
message = 1 ∷ 2 ∷ 3 ∷ []

pub set_up : Lms
set_up = record {
  identifier = identifier;
  seed = seed;
  tree = some (replicate 2048 (replicate 32 0));
}

pub set_up_lem : initialize true fresh (some identifier) (some seed) ≡ (true, set_up)
unfolding initialize set_up
set_up_lem = refl

abbrev pub finished : Lms
finished = (build_tree toy set_up).1

pub finished_lem : build_tree toy set_up ≡ (true, finished)
finished_lem =
    let fine : (build_tree toy set_up).0 ≡ true =
      build_tree_total toy toy-IsDocumented toy-IsReliable identifier seed (length-replicate 16 3)
        (length-replicate 32 5) true fresh set_up set_up_lem in
    λ i. (fine i, finished)

shape :
    (done : List (List ℕ)) × (finished
      ≡ record { identifier = identifier; seed = secure_zero 32 seed; tree = some done })
    × IsBuilt toy identifier seed done
shape = built_tree toy true fresh set_up finished identifier seed set_up_lem finished_lem

signed :
    (signature : List ℕ) × (sign toy finished 700 (some message) (some seed) drawn ≡ some signature)
signed =
    sign_total toy toy-IsDocumented toy-IsReliable identifier seed (length-replicate 16 3)
      (length-replicate 32 5) finished 700 message drawn (ap (λ l. l.identifier) shape.1)
      (omega arith) (omega arith) (length-replicate 32 9)

path_lem : extract_path finished 700 ≡ some (path_loop 10 1724 shape.0)
unfolding extract_path
path_lem = rw shape.1 refl

root_lem : root finished ≡ some (node_at shape.0 1)
unfolding root
root_lem = rw shape.1 refl

verify-sign_example :
    verify toy 700
      (some message)
      (some signed.0)
      (some identifier)
      (some (path_loop 10 1724 shape.0))
      (some (node_at shape.0 1))
    ≡ true
verify-sign_example =
    verify-sign toy toy-IsDocumented true fresh set_up finished identifier seed 700 message drawn
      signed.0 (path_loop 10 1724 shape.0) (node_at shape.0 1) set_up_lem finished_lem
      (length-replicate 32 9) signed.1 path_lem root_lem

build_tree_total_example : (build_tree toy set_up).0 ≡ true
build_tree_total_example =
    build_tree_total toy toy-IsDocumented toy-IsReliable identifier seed (length-replicate 16 3)
      (length-replicate 32 5) true fresh set_up set_up_lem

sign_total_example :
    (signature : List ℕ) × (sign toy fresh 5 (some message) (some seed) drawn ≡ some signature)
sign_total_example =
    sign_total toy toy-IsDocumented toy-IsReliable (replicate 16 0) seed (length-replicate 16 0)
      (length-replicate 32 5) fresh 5 message drawn refl (omega arith) (omega arith)
      (length-replicate 32 9)

abbrev zeros : List ℕ
zeros = replicate 32 0

with_checksum_undominated_example : zeros ≡ zeros
with_checksum_undominated_example =
    with_checksum_undominated zeros zeros (length-replicate 32 0) (length-replicate 32 0)
      (All-replicate IsByte 32 0 (omega arith)) (All-replicate IsByte 32 0 (omega arith))
      (λ i h. omega arith)

checksum_run : checksum_loop (0xf0 ∷ []) 2 0 0 ≡ 15
unfolding checksum_loop coefficient_w4
checksum_run = refl

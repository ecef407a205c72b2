-- ===== src/Lms/Tree.antt =====
-- LmotsLms.cpp: the tree, and the operations of class `LmotsLms`.
use post_quantum_uav_uav.Prelude.{
  ℕ, zero, suc, ◌+◌, ◌*◌, ◌/◌, ◌%◌, Bool, true, false, Option, none, some, List, [], ◌++◌, ltb,
  ◌==◌, guard, ◌>>=◌, ◌>>◌, if◌then◌else◌, get_or, set, slice, replicate, bit_xor,
}
use post_quantum_uav_uav.Codec.{put_u16, put_u32, constant_time_equal}
use post_quantum_uav_uav.Crypto.{WolfCrypt, hash, Pointer, secure_zero}
use post_quantum_uav_uav.Lms.Ots.{
  lmots_type, chains, lmots_public_hash, hash_message_with_checksum, sign_chains,
  lmots_candidate_public_hash,
}

abbrev lms_height : ℕ
lms_height = 10

abbrev pub lms_leaves : ℕ
lms_leaves = 1024

abbrev lms_tree_nodes : ℕ
lms_tree_nodes = 2048

abbrev d_leaf : ℕ
d_leaf = 0x8282

abbrev d_intr : ℕ
d_intr = 0x8383

-- `tree` is `none` where `m_tree` is null. The scratch buffers are not part of the state.
pub record Lms : Type 0 where
  pub identifier : List ℕ
  pub seed : List ℕ
  pub tree : Option (List (List ℕ))

abbrev pub fresh : Lms
fresh = record { identifier = replicate 16 0; seed = replicate 32 0; tree = none }

-- `m_tree[node]`
abbrev pub node_at : List (List ℕ) → ℕ → List ℕ
node_at tree node = get_or tree node []

-- `allocated` is whether `heap_caps_malloc` gave memory.
unfoldable pub initialize : Bool → Lms → Pointer → Pointer → Bool × Lms
initialize allocated lms none seed = (false, lms)
initialize allocated lms (some identifier) none = (false, lms)
initialize allocated lms (some identifier) (some seed) =
    let copied = record lms { identifier = identifier; seed = seed } in
    let zeroed = record copied { tree = some (replicate lms_tree_nodes (replicate 32 0)) } in
    elim lms.tree [
      | none ↦ if allocated then (true, zeroed) else (false, copied)
      | some old ↦ (true, zeroed)
    ]

unfoldable pub hash_leaf : WolfCrypt → List ℕ → ℕ → List ℕ → Option (List ℕ)
hash_leaf w identifier node_number lmots_public_hash_value =
    hash w (identifier ++ (put_u32 node_number ++ (put_u16 d_leaf ++ lmots_public_hash_value)))

unfoldable pub hash_internal : WolfCrypt → List ℕ → ℕ → List ℕ → List ℕ → Option (List ℕ)
hash_internal w identifier node_number left right =
    hash w (identifier ++ (put_u32 node_number ++ (put_u16 d_intr ++ (left ++ right))))

-- What a round of the first loop stores in `m_tree[LMS_LEAVES + q]`.
unfoldable pub leaf_value : WolfCrypt → List ℕ → List ℕ → ℕ → Option (List ℕ)
leaf_value w identifier seed q = do
  lmots_hash ← lmots_public_hash w identifier seed q
  hash_leaf w identifier (lms_leaves + q) lmots_hash

-- `for (q = 0; q < LMS_LEAVES; ++q)` with `rounds` leaves to go. A failed call leaves the tree so far.
unfoldable pub leaf_loop :
    WolfCrypt → List ℕ → List ℕ → ℕ → ℕ → List (List ℕ) → Bool × List (List ℕ)
leaf_loop w identifier seed zero q tree = (true, tree)
leaf_loop w identifier seed (suc rounds) q tree = elim (leaf_value w identifier seed q) [
  | none ↦ (false, tree)
  | some leaf ↦ leaf_loop w identifier seed rounds (q + 1) (set tree (lms_leaves + q) leaf)
]

-- `for (node = LMS_LEAVES - 1; node >= 1; --node)`, from the node given on.
unfoldable pub node_loop : WolfCrypt → List ℕ → ℕ → List (List ℕ) → Bool × List (List ℕ)
node_loop w identifier zero tree = (true, tree)
node_loop w identifier (suc n) tree =
    elim (hash_internal w identifier (suc n) (node_at tree (2 * suc n))
      (node_at tree (2 * suc n + 1))) [
        | none ↦ (false, tree)
        | some value ↦ node_loop w identifier n (set tree (suc n) value)
      ]

-- The seed is erased where the leaves are done, whether the inner nodes succeed or not.
unfoldable pub build_from : WolfCrypt → Lms → List (List ℕ) → Bool × Lms
build_from w lms tree =
    let (leaves_ok, leaves) = leaf_loop w lms.identifier lms.seed lms_leaves 0 tree in
    let (nodes_ok, nodes) = node_loop w lms.identifier 1023 leaves in
    if leaves_ok
    then (nodes_ok, record lms { seed = secure_zero 32 lms.seed; tree = some nodes })
    else (false, record lms { tree = some leaves })

unfoldable pub build_tree : WolfCrypt → Lms → Bool × Lms
unfolding build_from
build_tree w lms = elim lms.tree [ none ↦ (false, lms) | some tree ↦ build_from w lms tree ]

unfoldable pub root : Lms → Pointer
root lms = lms.tree >>= λ tree. some (node_at tree 1)

-- The siblings on the way up from `node`, for the levels left.
unfoldable pub path_loop : ℕ → ℕ → List (List ℕ) → List ℕ
path_loop zero node tree = []
path_loop (suc levels) node tree = node_at tree (bit_xor node 1) ++ path_loop levels (node / 2) tree

unfoldable pub extract_path : Lms → ℕ → Option (List ℕ)
unfolding path_loop
extract_path lms q = do
  tree ← lms.tree
  guard (ltb q lms_leaves)
  some (path_loop lms_height (lms_leaves + q) tree)

-- `c` is what `esp_fill_random` gave.
unfoldable pub sign : WolfCrypt → Lms → ℕ → Pointer → Pointer → List ℕ → Option (List ℕ)
sign w lms q message runtime_seed c = do
  guard (ltb q lms_leaves)
  bytes ← message
  seed ← runtime_seed
  digest_and_checksum ← hash_message_with_checksum w lms.identifier q c bytes 1024
  elements ← sign_chains w lms.identifier seed q digest_and_checksum chains 0
  some (put_u32 lmots_type ++ (c ++ elements))

-- The loop of `verify` from `level` on: `current` is the node `node` on the way to the root.
unfoldable pub climb : WolfCrypt → List ℕ → List ℕ → ℕ → ℕ → ℕ → List ℕ → Option (List ℕ)
climb w identifier path zero level node current = some current
climb w identifier path (suc levels) level node current = do
  let sibling = slice (level * 32) 32 path
  parent ←
      if node % 2 == 0
      then hash_internal w identifier (node / 2) current sibling
      else hash_internal w identifier (node / 2) sibling current
  climb w identifier path levels (level + 1) (node / 2) parent

abbrev is_true : Option Bool → Bool
is_true none = false
is_true (some b) = b

unfoldable pub verify : WolfCrypt → ℕ → Pointer → Pointer → Pointer → Pointer → Pointer → Bool
verify w q message signature peer_identifier peer_path peer_root = is_true (do
  guard (ltb q lms_leaves)
  bytes ← message
  signed ← signature
  identifier ← peer_identifier
  path ← peer_path
  expected ← peer_root
  lmots_hash ← lmots_candidate_public_hash w identifier q bytes signed
  leaf ← hash_leaf w identifier (lms_leaves + q) lmots_hash
  top ← climb w identifier path lms_height 0 (lms_leaves + q) leaf
  some (constant_time_equal top expected 32))

-- ===== src/Lms/Merkle.antt =====
-- The tree that `buildTree` of LmotsLms.cpp leaves: every leaf is the hash of its public key, every
-- inner node the hash of its children, and a path leads to the root.
use post_quantum_uav_uav.Prelude.{
  ℕ, zero, suc, ◌+◌, ◌-◌, ◌*◌, ◌/◌, ◌%◌, ◌^◌, ◌≤◌, ◌<◌, ◌≡◌, refl, sym, subst, ap, ap₂, ◌∙◌, true,
  false, some, List, [], arith, >>=-eq-some, Option-cases, inl, inr, ◌==◌, if◌then◌else◌, length,
  length-append, set, length-set, get_or-set_self, get_or-set_ne, slice, take, drop, take-append,
  drop-append, drop-drop, bit_xor, ==_iff,
}
use post_quantum_uav_uav.Prelude.Bits.{bit_xor_one}
use native.Mathlib.Nat.{pow-suc, one-le-pow, pow-le-pow_right}
use native.Mathlib.Decide.{ℕ_discrete, dec_lt}
use post_quantum_uav_uav.Crypto.{WolfCrypt, IsDocumented}
use post_quantum_uav_uav.Crypto.Sha.{hash-IsDigest}
use post_quantum_uav_uav.Lms.Ots.{lmots_public_hash}
use post_quantum_uav_uav.Lms.Tree.{
  node_at, hash_leaf, hash_internal, leaf_value, leaf_loop, node_loop, path_loop, climb, lms_leaves,
}

-- One level up, from a node that is not the root.
level_bounds :
    (levels node : ℕ)
    → 2 ^ suc levels ≤ node
    → node < 2 ^ suc (suc levels)
    → suc levels ≤ 10
    → (2 ≤ node) × (node < 2048) × (2 ^ levels ≤ node / 2) × (node / 2 < 2 ^ suc levels)
level_bounds levels node lo hi h = omega (
  arith,
  pow-suc 2 levels,
  pow-suc 2 (suc levels),
  one-le-pow levels 2,
  pow-le-pow_right {n = 2} (omega arith) {i = suc (suc levels)} {j = 11} (omega arith),
)

module _ (w : WolfCrypt) (identifier seed : List ℕ) where
  -- Node 1024 + q of the tree is the leaf of index `q`.
  abbrev IsLeaf : List (List ℕ) → ℕ → Type 0
  IsLeaf tree q =
      (key : List ℕ) × (lmots_public_hash w identifier seed q ≡ some key)
      × (hash_leaf w identifier (lms_leaves + q) key ≡ some (node_at tree (lms_leaves + q)))

  abbrev IsInner : List (List ℕ) → ℕ → Type 0
  IsInner tree n =
      hash_internal w identifier n (node_at tree (2 * n)) (node_at tree (2 * n + 1))
      ≡ some (node_at tree n)

  leaf_value-IsLeaf :
      (q : ℕ) (tree : List (List ℕ))
      → leaf_value w identifier seed q ≡ some (node_at tree (1024 + q))
      → IsLeaf tree q
  unfolding leaf_value
  leaf_value-IsLeaf q tree e = >>=-eq-some (lmots_public_hash w identifier seed q) _ e

  -- The leaves from `q` on are written, and nothing before them.
  pub leaf_loop_lem :
      (rounds q : ℕ) (tree done : List (List ℕ))
      → length tree ≡ 2048
      → q + rounds ≡ 1024
      → leaf_loop w identifier seed rounds q tree ≡ (true, done)
      → (length done ≡ 2048)
        × ((k : ℕ) → k < 1024 + q → node_at done k ≡ node_at tree k)
        × ((k : ℕ) → q ≤ k → k < 1024 → IsLeaf done k)
  unfolding leaf_loop
  leaf_loop_lem zero q tree done hl hq e =
      let same : tree ≡ done = ap (λ p. p.1) e in
      (rw (← same) hl, λ k h. rw (← same) refl, λ k h h'. absurd (omega arith))
  leaf_loop_lem (suc rounds) q tree done hl hq e =
      elim (Option-cases (leaf_value w identifier seed q)) [
        | inl h ↦ cc (ap (λ p. p.0) (rw (h, leaf_loop) at e))
        | inr (leaf, h) ↦
            let written = set tree (1024 + q) leaf in
            let (size, kept, leaves) =
              leaf_loop_lem rounds (q + 1) written done (length-set tree (1024 + q) leaf ∙ hl)
                (omega arith) (rw (h, leaf_loop) at e) in
            let stored : node_at done (1024 + q) ≡ leaf =
              kept (1024 + q) (omega arith)
              ∙ get_or-set_self tree (1024 + q) leaf [] (omega arith) in
            (
              size,
              λ k hk'. kept k (omega arith) ∙ get_or-set_ne tree (1024 + q) k leaf [] (omega arith),
              λ k lo hi. elim (ℕ_discrete q k) [
                | yes here ↦ rw (← here) (leaf_value-IsLeaf q done (h ∙ ap some (sym stored)))
                | no other ↦ leaves k (omega arith) hi
              ],
            )
      ]

  -- The inner nodes up to `n` are written, and nothing above them.
  pub node_loop_lem :
      (n : ℕ) (tree done : List (List ℕ))
      → length tree ≡ 2048
      → n < 1024
      → node_loop w identifier n tree ≡ (true, done)
      → (length done ≡ 2048)
        × ((k : ℕ) → n < k → node_at done k ≡ node_at tree k)
        × ((k : ℕ) → 0 < k → k ≤ n → IsInner done k)
  unfolding node_loop
  node_loop_lem zero tree done hl hn e =
      let same : tree ≡ done = ap (λ p. p.1) e in
      (rw (← same) hl, λ k h. rw (← same) refl, λ k h h'. absurd (omega arith))
  node_loop_lem (suc n) tree done hl hn e =
      elim (Option-cases (
        hash_internal w identifier (suc n) (node_at tree (2 * suc n))
          (node_at tree (2 * suc n + 1)))) [
            | inl h ↦ cc (ap (λ p. p.0) (rw (h, node_loop) at e))
            | inr (value, h) ↦
                let written = set tree (suc n) value in
                let (size, kept, inner) =
                  node_loop_lem n written done (length-set tree (suc n) value ∙ hl) (omega arith)
                    (rw (h, node_loop) at e) in
                (
                  size,
                  λ k hk.
                      kept k (omega arith) ∙ get_or-set_ne tree (suc n) k value [] (omega arith),
                  λ k lo hi. elim (ℕ_discrete (suc n) k) [
                    | yes here ↦ rw (← here) (
                        rw
                          (
                            kept (2 * suc n) (omega arith),
                            kept (2 * suc n + 1) (omega arith),
                            kept (suc n) (omega arith),
                            get_or-set_ne tree (suc n) (2 * suc n) value [] (omega arith),
                            get_or-set_ne tree (suc n) (2 * suc n + 1) value [] (omega arith),
                            get_or-set_self tree (suc n) value [] (omega arith),
                          )
                          h)
                    | no other ↦ inner k lo (omega arith)
                  ],
                )
          ]

  -- A finished tree.
  pub record IsBuilt (tree : List (List ℕ)) : Type 0 where
    pub leaves : (q : ℕ) → q < 1024 → IsLeaf tree q
    pub inner : (n : ℕ) → 0 < n → n < 1024 → IsInner tree n

  module _ (documented : IsDocumented w) {tree : List (List ℕ)} (built : IsBuilt tree) where
    length-node_at : (k : ℕ) → 0 < k → k < 2048 → length (node_at tree k) ≡ 32
    unfolding hash_leaf hash_internal
    length-node_at k lo hi = elim (dec_lt k 1024) [
      | yes low ↦ (hash-IsDigest w documented _ _ (built.inner k lo low)).0
      | no high ↦
          let same : 1024 + (k - 1024) ≡ k = omega arith in
          let (key, hk, hl) = built.leaves (k - 1024) (omega arith) in
          subst (λ (t : ℕ). length (node_at tree t) ≡ 32) same (hash-IsDigest w documented _ _ hl).0
    ]

    pub length-path_loop :
        (levels node : ℕ)
        → 2 ^ levels ≤ node
        → node < 2 ^ suc levels
        → levels ≤ 10
        → length (path_loop levels node tree) ≡ levels * 32
    unfolding path_loop
    length-path_loop zero node lo hi h = refl
    length-path_loop (suc levels) node lo hi h =
        let (b1, b2, b3, b4) = level_bounds levels node lo hi h in
        omega (
          arith,
          length-append (node_at tree (bit_xor node 1)) (path_loop levels (node / 2) tree),
          length-node_at (bit_xor node 1) (omega (arith, bit_xor_one node))
              (omega (arith, bit_xor_one node)),
          length-path_loop levels (node / 2) b3 b4 (omega arith),
        )

    -- A node and its sibling, in their order, hash to their parent.
    parent_of :
        (node : ℕ)
        → 2 ≤ node
        → node < 2048
        → (if node % 2 == 0
            then hash_internal w identifier
                (node / 2)
                (node_at tree node)
                (node_at tree (bit_xor node 1))
            else hash_internal w identifier
                (node / 2)
                (node_at tree (bit_xor node 1))
                (node_at tree node))
          ≡ some (node_at tree (node / 2))
    parent_of node lo hi = elim (ℕ_discrete (node % 2) 0) [
      | yes even ↦
          let left : node ≡ 2 * (node / 2) = omega arith in
          let right : bit_xor node 1 ≡ 2 * (node / 2) + 1 = omega (arith, bit_xor_one node) in
          rw ((==_iff (node % 2) 0).1 even) (
            ap₂
              (λ (a b : ℕ). hash_internal w identifier (node / 2) (node_at tree a) (node_at tree b))
              left right
            ∙ built.inner (node / 2) (omega arith) (omega arith))
      | no odd ↦
          let left : bit_xor node 1 ≡ 2 * (node / 2) = omega (arith, bit_xor_one node) in
          let right : node ≡ 2 * (node / 2) + 1 = omega arith in
          let test : (node % 2 == 0) ≡ false = ground arith in
          rw test (
            ap₂
              (λ (a b : ℕ). hash_internal w identifier (node / 2) (node_at tree a) (node_at tree b))
              left right
            ∙ built.inner (node / 2) (omega arith) (omega arith))
    ]

    -- From any node the siblings lead to the root.
    pub climb-path_loop :
        (path : List ℕ) (levels level node : ℕ)
        → 2 ^ levels ≤ node
        → node < 2 ^ suc levels
        → levels ≤ 10
        → drop (level * 32) path ≡ path_loop levels node tree
        → climb w identifier path levels level node (node_at tree node) ≡ some (node_at tree 1)
    unfolding path_loop climb
    climb-path_loop path zero level node lo hi hl hp = let one : node ≡ 1 = omega arith in rw one
    climb-path_loop path (suc levels) level node lo hi hl hp =
        let (b1, b2, b3, b4) = level_bounds levels node lo hi hl in
        let size : length (node_at tree (bit_xor node 1)) ≡ 32 =
          length-node_at (bit_xor node 1) (omega (arith, bit_xor_one node))
            (omega (arith, bit_xor_one node)) in
        let sibling : slice (level * 32) 32 path ≡ node_at tree (bit_xor node 1) =
          ap (take 32) hp ∙ take-append 32 _ (path_loop levels (node / 2) tree) size in
        let rest : drop ((level + 1) * 32) path ≡ path_loop levels (node / 2) tree =
          ap (λ (k : ℕ). drop k path) (omega arith)
          ∙ sym (drop-drop 32 (level * 32) path)
          ∙ ap (drop 32) hp
          ∙ drop-append 32 _ (path_loop levels (node / 2) tree) size in
        rw (sibling, parent_of node b1 b2)
          (climb-path_loop path levels (level + 1) (node / 2) b3 b4 (omega arith) rest)

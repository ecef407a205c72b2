-- ===== src/Lms/SignVerify.antt =====
-- LmotsLms.cpp: a tree that is built signs and verifies.
use post_quantum_uav_uav.Prelude.{
  ℕ, ◌+◌, ◌*◌, ◌<◌, ◌≡◌, refl, sym, subst, ap, ◌∙◌, Bool, true, false, Option, none, some, List, [],
  ◌++◌, arith, >>=-eq-some, guard-eq-some, Bool-cases, inl, inr, ltb, ltb→lt, lt→ltb, length,
  length-append, length-replicate, replicate, slice, slice-parts, append-nil, append_assoc,
}
use post_quantum_uav_uav.Codec.{put_u32}
use post_quantum_uav_uav.Codec.Integers.{get_u32-put_u32, length-put_u32}
use post_quantum_uav_uav.Codec.Compare.{constant_time_equal_refl}
use post_quantum_uav_uav.Crypto.{WolfCrypt, IsDocumented, secure_zero}
use post_quantum_uav_uav.Lms.Ots.{
  lmots_public_hash, hash_message_with_checksum, sign_chains, public_chains,
  lmots_candidate_public_hash, lmots_type,
}
use post_quantum_uav_uav.Lms.Chain.{length-sign_chains, candidate_chains-sign_chains}
use post_quantum_uav_uav.Lms.Merkle.{IsBuilt, leaf_loop_lem, node_loop_lem, climb-path_loop}
use post_quantum_uav_uav.Lms.Tree.{
  Lms, node_at, initialize, leaf_loop, node_loop, build_tree, build_from, root, path_loop,
  extract_path, sign, climb, verify,
}

module _ (w : WolfCrypt) (lms : Lms) (tree : List (List ℕ)) where
  abbrev leaves_done : Bool × List (List ℕ)
  leaves_done = leaf_loop w lms.identifier lms.seed 1024 0 tree

  abbrev nodes_done : Bool × List (List ℕ)
  nodes_done = node_loop w lms.identifier 1023 leaves_done.1

  build_from_parts :
      (built : Lms)
      → build_from w lms tree ≡ (true, built)
      → (leaves_done.0 ≡ true)
        × (nodes_done.0 ≡ true)
        × (built ≡ record lms { seed = secure_zero 32 lms.seed; tree = some nodes_done.1 })
  unfolding build_from
  build_from_parts built e = elim (Bool-cases leaves_done.0) [
    | inr failed ↦ cc (ap (λ p. p.0) (rw failed at e))
    | inl fine ↦
        let done : (
          nodes_done.0,
          record lms { seed = secure_zero 32 lms.seed; tree = some nodes_done.1 },
        )
            ≡ (true, built) =
          rw fine at e in
        (fine, ap (λ p. p.0) done, sym (ap (λ p. p.1) done))
  ]

  -- The tree of a successful build.
  build_from-IsBuilt :
      (built : Lms)
      → length tree ≡ 2048
      → build_from w lms tree ≡ (true, built)
      → (done : List (List ℕ)) × (built
          ≡ record lms { seed = secure_zero 32 lms.seed; tree = some done })
        × IsBuilt w lms.identifier lms.seed done
  build_from-IsBuilt built hl e =
      let (fine, fine', same) = build_from_parts built e in
      let (size, kept, leaves) =
        leaf_loop_lem w lms.identifier lms.seed 1024 0 tree leaves_done.1 hl refl
          (λ i. (fine i, leaves_done.1)) in
      let (size', kept', inner) =
        node_loop_lem w lms.identifier lms.seed 1023 leaves_done.1 nodes_done.1 size (omega arith)
          (λ i. (fine' i, nodes_done.1)) in
      (
        nodes_done.1,
        same,
        record {
          leaves = λ q h.
              let (key, hk, hl') = leaves q (omega arith) h in
              (key, hk, hl' ∙ ap some (sym (kept' (1024 + q) (omega arith))));
          inner = λ n lo hi. inner n lo (omega arith);
        },
      )

abbrev zeroed_tree : List (List ℕ)
zeroed_tree = replicate 2048 (replicate 32 0)

pub initialize_lem :
    (allocated : Bool) (old lms : Lms) (identifier seed : List ℕ)
    → initialize allocated old (some identifier) (some seed) ≡ (true, lms)
    → lms ≡ record { identifier = identifier; seed = seed; tree = some zeroed_tree }
unfolding initialize
initialize_lem allocated old lms identifier seed e = by_tree old.tree refl allocated refl
  where
    by_tree :
        (t : Option (List (List ℕ)))
        → old.tree ≡ t
        → (b : Bool) → allocated ≡ b
        → lms ≡ record { identifier = identifier; seed = seed; tree = some zeroed_tree }
    by_tree none h true h' = sym (ap (λ p. p.1) (rw (h, h') at e))
    by_tree none h false h' = cc (ap (λ p. p.0) (rw (h, h') at e))
    by_tree (some t) h b h' = sym (ap (λ p. p.1) (rw h at e))

-- A tree set up and built by the two calls.
pub built_tree :
    (w : WolfCrypt) (allocated : Bool) (old lms built : Lms) (identifier seed : List ℕ)
    → initialize allocated old (some identifier) (some seed) ≡ (true, lms)
    → build_tree w lms ≡ (true, built)
    → (done : List (List ℕ)) × (built
        ≡ record { identifier = identifier; seed = secure_zero 32 seed; tree = some done })
      × IsBuilt w identifier seed done
unfolding build_tree
built_tree w allocated old lms built identifier seed hi hb =
    let start : Lms = record { identifier = identifier; seed = seed; tree = some zeroed_tree } in
    let same : lms ≡ start = initialize_lem allocated old lms identifier seed hi in
    build_from-IsBuilt w start zeroed_tree built (length-replicate 2048 (replicate 32 0))
      (subst (λ l. build_tree w l ≡ (true, built)) same hb)

-- The signature's parts, read where the verifier reads them.
signature_parts :
    (c elements : List ℕ)
    → length c ≡ 32
    → length elements ≡ 32 * 67
    → (slice 4 32 (put_u32 lmots_type ++ (c ++ elements)) ≡ c)
      × (slice 36 (67 * 32) (put_u32 lmots_type ++ (c ++ elements)) ≡ elements)
signature_parts c elements hc he = (
  slice-parts 4 32 (put_u32 3) c elements (length-put_u32 3) hc,
  ap (slice 36 2144) joined
      ∙ slice-parts 36 2144 (put_u32 3 ++ c) elements []
          (omega (arith, length-append (put_u32 3) c, length-put_u32 3)) (omega arith),
)
  where
    joined : put_u32 3 ++ (c ++ elements) ≡ (put_u32 3 ++ c) ++ (elements ++ [])
    joined =
        sym (append_assoc (put_u32 3) c elements)
        ∙ ap (λ t. (put_u32 3 ++ c) ++ t) (sym (append-nil elements))

-- The verifier recovers the one-time public key from a signature under that key.
candidate-sign :
    (w : WolfCrypt) (documented : IsDocumented w) (identifier seed : List ℕ) (q : ℕ)
    (message c dc elements key : List ℕ)
    → length c ≡ 32
    → hash_message_with_checksum w identifier q c message 1024 ≡ some dc
    → sign_chains w identifier seed q dc 67 0 ≡ some elements
    → lmots_public_hash w identifier seed q ≡ some key
    → lmots_candidate_public_hash w identifier q message (put_u32 lmots_type ++ (c ++ elements))
      ≡ some key
unfolding lmots_candidate_public_hash lmots_public_hash
candidate-sign w documented identifier seed q message c dc elements key hc hm hs hk =
    let (ends, he, hh) = >>=-eq-some (public_chains w identifier seed q 67 0) _ hk in
    let (read_c, read_y) =
      signature_parts c elements hc
        (length-sign_chains w documented identifier seed q dc 67 0 elements hs) in
    rw
      (
        get_u32-put_u32 3 (c ++ elements) (omega arith),
        read_c,
        hm,
        read_y,
        candidate_chains-sign_chains w documented identifier seed q dc elements 67 0 ends elements
            he hs refl,
      )
      hh

pub sign_parts :
    (w : WolfCrypt) (lms : Lms) (q : ℕ) (message seed c signature : List ℕ)
    → sign w lms q (some message) (some seed) c ≡ some signature
    → (dc : List ℕ) × (elements : List ℕ) × (hash_message_with_checksum w lms.identifier q c message
          1024
        ≡ some dc)
      × (sign_chains w lms.identifier seed q dc 67 0 ≡ some elements)
      × (signature ≡ put_u32 lmots_type ++ (c ++ elements))
unfolding sign
sign_parts w lms q message seed c signature e =
    let (small, e1) = guard-eq-some (ltb q 1024) _ e in
    let (dc, hm, e2) =
      >>=-eq-some (hash_message_with_checksum w lms.identifier q c message 1024) _ e1 in
    let (elements, hs, e3) = >>=-eq-some (sign_chains w lms.identifier seed q dc 67 0) _ e2 in
    (dc, elements, hm, hs, cc)

-- The path of an index below 1024 leads from its leaf to the root.
climb-path :
    (w : WolfCrypt) (documented : IsDocumented w) (identifier seed : List ℕ) (done : List (List ℕ))
    (q : ℕ)
    → IsBuilt w identifier seed done
    → q < 1024
    → climb w identifier (path_loop 10 (1024 + q) done) 10 0 (1024 + q) (node_at done (1024 + q))
      ≡ some (node_at done 1)
climb-path w documented identifier seed done q built h =
    climb-path_loop w identifier seed documented built (path_loop 10 (1024 + q) done) 10 0
      (1024 + q) (omega arith) (omega arith) (omega arith) refl

verify-built :
    (w : WolfCrypt) (documented : IsDocumented w) (identifier seed : List ℕ) (done : List (List ℕ))
    (q : ℕ) (message c dc elements : List ℕ)
    → IsBuilt w identifier seed done
    → q < 1024
    → length c ≡ 32
    → hash_message_with_checksum w identifier q c message 1024 ≡ some dc
    → sign_chains w identifier seed q dc 67 0 ≡ some elements
    → verify w q
        (some message)
        (some (put_u32 lmots_type ++ (c ++ elements)))
        (some identifier)
        (some (path_loop 10 (1024 + q) done))
        (some (node_at done 1))
      ≡ true
unfolding verify
verify-built w documented identifier seed done q message c dc elements built hq hc hm hs =
    let (key, hk, hl) = built.leaves q hq in
    rw
      (
        lt→ltb q 1024 hq,
        candidate-sign w documented identifier seed q message c dc elements key hc hm hs hk,
        hl,
        climb-path w documented identifier seed done q built hq,
      )
      (constant_time_equal_refl (node_at done 1) 32)

-- Correctness of the signature scheme: where a tree was set up from an identifier and a seed and
-- built, a signature that `sign` makes with that seed at index `q`, for any message and any 32 random
-- bytes, is accepted by `verify` with the path that `extractPath` gives for `q` and the tree's root.
-- Digests have 32 bytes, as wolfSSL documents.
pub verify-sign :
    (w : WolfCrypt) (documented : IsDocumented w) (allocated : Bool) (old lms built : Lms)
    (identifier seed : List ℕ) (q : ℕ) (message c signature path key : List ℕ)
    → initialize allocated old (some identifier) (some seed) ≡ (true, lms)
    → build_tree w lms ≡ (true, built)
    → length c ≡ 32
    → sign w built q (some message) (some seed) c ≡ some signature
    → extract_path built q ≡ some path
    → root built ≡ some key
    → verify w q (some message) (some signature) (some identifier) (some path) (some key) ≡ true
unfolding extract_path root
verify-sign w documented allocated old lms built identifier seed q message c signature path key hi
      hb hc hs hp hr =
    let (done, same, tree) = built_tree w allocated old lms built identifier seed hi hb in
    let at_built : Lms = record {
      identifier = identifier;
      seed = secure_zero 32 seed;
      tree = some done;
    } in
    let (dc, elements, hm, hy, signed) =
      sign_parts w at_built q message seed c signature
        (subst (λ l. sign w l q (some message) (some seed) c ≡ some signature) same hs) in
    let (small, read) =
      guard-eq-some (ltb q 1024) _ (subst (λ l. extract_path l q ≡ some path) same hp) in
    let read_root : some (node_at done 1) ≡ some key = subst (λ l. root l ≡ some key) same hr in
    let on_path : path_loop 10 (1024 + q) done ≡ path = cc in
    let on_root : node_at done 1 ≡ key = cc in
    rw (signed, ← on_path, ← on_root)
      (verify-built w documented identifier seed done q message c dc elements tree
        (ltb→lt q 1024 small) hc hm hy)

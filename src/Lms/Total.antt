-- ===== src/Lms/Total.antt =====
-- LmotsLms.cpp where wolfSSL reports no error: every operation on a tree that is set up succeeds.
use post_quantum_uav_uav.Prelude.{
  ℕ, zero, suc, ◌+◌, ◌-◌, ◌*◌, ◌≤◌, ◌<◌, ◌≡◌, refl, Bool, true, Option, some, List, [], ◌∷◌, ◌++◌,
  arith, leb, lt→ltb, length, length-append, length-replicate, replicate, set, All, All-replicate,
}
use post_quantum_uav_uav.Codec.{put_u16, put_u32}
use post_quantum_uav_uav.Codec.Integers.{length-put_u32, length-put_u16}
use post_quantum_uav_uav.Crypto.{WolfCrypt, IsDocumented, hash}
use post_quantum_uav_uav.Crypto.Sha.{hash-IsDigest, IsReliable, hash_total}
use post_quantum_uav_uav.Lms.Ots.{
  lmots_public_hash, hash_message_with_checksum, sign_chains, public_chains, derive_private_element,
  chain_loop, chain_hash, coefficient_w4, with_checksum,
}
use post_quantum_uav_uav.Lms.SignVerify.{initialize_lem}
use post_quantum_uav_uav.Lms.Tree.{
  Lms, node_at, initialize, build_from, hash_leaf, hash_internal, leaf_value, leaf_loop, node_loop,
  build_tree, sign,
}

-- A call that succeeds with a digest.
abbrev Digests : Option (List ℕ) → Type 0
Digests r = (d : List ℕ) × (r ≡ some d) × (length d ≡ 32)

module _ (w : WolfCrypt) (documented : IsDocumented w) (reliable : IsReliable w) where
  hash-Digests : (bytes : List ℕ) → length bytes ≤ 4294967295 → Digests (hash w bytes)
  hash-Digests bytes h =
      let (d, e) = hash_total w reliable bytes h in (d, e, (hash-IsDigest w documented bytes d e).0)

  -- The fields in front of what is hashed.
  tagged-Digests :
      (identifier : List ℕ) (q tag : ℕ) (bytes : List ℕ)
      → length identifier ≡ 16
      → length bytes ≤ 4294967273
      → Digests (hash w (identifier ++ (put_u32 q ++ (put_u16 tag ++ bytes))))
  tagged-Digests identifier q tag bytes hi hb = hash-Digests _ (
      omega (
        arith,
        length-append identifier (put_u32 q ++ (put_u16 tag ++ bytes)),
        length-append (put_u32 q) (put_u16 tag ++ bytes),
        length-append (put_u16 tag) bytes,
        length-put_u32 q,
        length-put_u16 tag,
      ))

  module _ (identifier : List ℕ) (sized : length identifier ≡ 16) where
    chain_total :
        (q i n j : ℕ) (x : List ℕ) → length x ≡ 32 → Digests (chain_loop w identifier q i n j x)
    unfolding chain_loop
    chain_total q i zero j x h = (x, refl, h)
    chain_total q i (suc n) j x h =
        let (d, e, hd) = tagged-Digests identifier q i (j ∷ x) sized (omega arith) in
        rw e (chain_total q i n (j + 1) d hd)

    module _ (seed : List ℕ) (sized_seed : length seed ≡ 32) (q : ℕ) where
      private_total : (i : ℕ) → Digests (derive_private_element w identifier seed q i)
      unfolding derive_private_element
      private_total i = tagged-Digests identifier q i (0xff ∷ seed) sized (omega arith)

      public_total :
          (n i : ℕ)
          → (ends : List ℕ) × (public_chains w identifier seed q n i ≡ some ends)
            × (length ends ≡ 32 * n)
      unfolding public_chains chain_hash
      public_total zero i = ([], refl, refl)
      public_total (suc n) i =
          let (x, ex, hx) = private_total i in
          let (z, ez, hz) = chain_total q i 15 0 x hx in
          let (rest, er, hr) = public_total n (i + 1) in
          (z ++ rest, rw (ex, ez, er), omega (arith, length-append z rest))

      key_total : Digests (lmots_public_hash w identifier seed q)
      unfolding lmots_public_hash
      key_total =
          let (ends, e, h) = public_total 67 0 in
          rw e (tagged-Digests identifier q 0x8080 ends sized (omega arith))

      sign_chains_total :
          (dc : List ℕ) (n i : ℕ)
          → (ys : List ℕ) × (sign_chains w identifier seed q dc n i ≡ some ys)
      unfolding sign_chains chain_hash
      sign_chains_total dc zero i = ([], refl)
      sign_chains_total dc (suc n) i =
          let (x, ex, hx) = private_total i in
          let (y, ey, hy) = chain_total q i (coefficient_w4 dc i - 0) 0 x hx in
          let (rest, er) = sign_chains_total dc n (i + 1) in (y ++ rest, rw (ex, ey, er))

      leaf_total : Digests (leaf_value w identifier seed q)
      unfolding leaf_value hash_leaf
      leaf_total =
          let (key, e, h) = key_total in
          rw e (tagged-Digests identifier (1024 + q) 0x8282 key sized (omega arith))

    message_total :
        (q : ℕ) (c message : List ℕ)
        → length c ≡ 32
        → length message ≤ 970
        → (dc : List ℕ) × (hash_message_with_checksum w identifier q c message 1024 ≡ some dc)
    unfolding hash_message_with_checksum
    message_total q c message hc hm =
        let (d, e, h) =
          tagged-Digests identifier q 0x8181 (c ++ message) sized
            (omega (arith, length-append c message)) in
        let fits : leb (16 + 4 + 2 + 32 + length message) 1024 ≡ true = ground arith in
        (with_checksum d, rw (fits, e))

-- Every entry of the tree has at most 32 bytes.
abbrev Small : List (List ℕ) → Type 0
Small = All (λ v. length v ≤ 32)

Small-set : (t : List (List ℕ)) (i : ℕ) (v : List ℕ) → Small t → length v ≤ 32 → Small (set t i v)
Small-set [] i v h hv = tt
Small-set (x ∷ t) zero v h hv = (hv, h.1)
Small-set (x ∷ t) (suc i) v h hv = (h.0, Small-set t i v h.1 hv)

length-Small : (t : List (List ℕ)) (i : ℕ) → Small t → length (node_at t i) ≤ 32
length-Small [] i h = omega arith
length-Small (x ∷ t) zero h = h.0
length-Small (x ∷ t) (suc i) h = length-Small t i h.1

Small-zeroed : Small (replicate 2048 (replicate 32 0))
Small-zeroed =
    All-replicate (λ (v : List ℕ). length v ≤ 32) 2048 (replicate 32 0)
      (omega (arith, length-replicate {A = ℕ} 32 0))

module _ (w : WolfCrypt) (documented : IsDocumented w) (reliable : IsReliable w)
    (identifier seed : List ℕ) (sized : length identifier ≡ 16)
    (sized_seed : length seed ≡ 32) where
  leaf_loop_total :
      (rounds q : ℕ) (tree : List (List ℕ))
      → Small tree
      → (leaf_loop w identifier seed rounds q tree).0 ≡ true
        × Small (leaf_loop w identifier seed rounds q tree).1
  unfolding leaf_loop
  leaf_loop_total zero q tree h = (refl, h)
  leaf_loop_total (suc rounds) q tree h =
      let (leaf, e, hl) = leaf_total w documented reliable identifier sized seed sized_seed q in
      rw (e, leaf_loop)
        (leaf_loop_total rounds (q + 1) (set tree (1024 + q) leaf)
          (Small-set tree (1024 + q) leaf h (omega arith)))

  node_loop_total :
      (n : ℕ) (tree : List (List ℕ)) → Small tree → (node_loop w identifier n tree).0 ≡ true
  unfolding node_loop hash_internal
  node_loop_total zero tree h = refl
  node_loop_total (suc n) tree h =
      let (value, e, hv) =
        tagged-Digests w documented reliable identifier (suc n) 0x8383
          (node_at tree (2 * suc n) ++ node_at tree (2 * suc n + 1)) sized
          (omega (
            arith,
            length-append (node_at tree (2 * suc n)) (node_at tree (2 * suc n + 1)),
            length-Small tree (2 * suc n) h,
            length-Small tree (2 * suc n + 1) h,
          )) in
      rw (e, node_loop)
        (node_loop_total n (set tree (suc n) value) (Small-set tree (suc n) value h (omega arith)))

  build_from_total :
      (tree : List (List ℕ))
      → Small tree
      → (build_from w (record { identifier = identifier; seed = seed; tree = some tree }) tree).0
        ≡ true
  unfolding build_from
  build_from_total tree h =
      let (fine, small) = leaf_loop_total 1024 0 tree h in rw fine (node_loop_total 1023 _ small)

  -- Where wolfSSL reports no error, a tree that `initialize` set up, from a 16-byte identifier and a
  -- 32-byte seed, is built: `buildTree` returns true.
  pub build_tree_total :
      (allocated : Bool) (old lms : Lms)
      → initialize allocated old (some identifier) (some seed) ≡ (true, lms)
      → (build_tree w lms).0 ≡ true
  unfolding build_tree
  build_tree_total allocated old lms e =
      rw (initialize_lem allocated old lms identifier seed e)
        (build_from_total (replicate 2048 (replicate 32 0)) Small-zeroed)

  -- Where wolfSSL reports no error, `sign` succeeds for a 16-byte identifier and a 32-byte seed, at
  -- every index below 1024, for every message of at most 970 bytes, whatever 32 random bytes it draws.
  pub sign_total :
      (lms : Lms) (q : ℕ) (message c : List ℕ)
      → lms.identifier ≡ identifier
      → q < 1024
      → length message ≤ 970
      → length c ≡ 32
      → (signature : List ℕ) × (sign w lms q (some message) (some seed) c ≡ some signature)
  unfolding sign
  sign_total lms q message c hi hq hm hc =
      let (dc, e) = message_total w documented reliable identifier sized q c message hc hm in
      let (ys, ey) =
        sign_chains_total w documented reliable identifier sized seed sized_seed q dc 67 0 in
      (put_u32 3 ++ (c ++ ys), rw (lt→ltb q 1024 hq, hi, e, ey))

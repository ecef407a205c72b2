-- ===== src/Lms/Sizes.antt =====
-- LmotsLms.cpp: the sizes of what `sign` and `extractPath` write.
use post_quantum_uav_uav.Prelude.{
  ℕ, ◌+◌, ◌<◌, ◌≡◌, Bool, true, some, List, ltb, ltb→lt, lt→ltb, refl, ◌++◌, length, length-append,
  arith, subst, guard-eq-some, ap,
}
use post_quantum_uav_uav.Codec.Integers.{length-put_u32}
use post_quantum_uav_uav.Codec.{put_u32}
use post_quantum_uav_uav.Crypto.{WolfCrypt, IsDocumented}
use post_quantum_uav_uav.Lms.Ots.{lmots_type}
use post_quantum_uav_uav.Lms.Tree.{Lms, initialize, build_tree, sign, extract_path, path_loop}
use post_quantum_uav_uav.Lms.Chain.{length-sign_chains}
use post_quantum_uav_uav.Lms.Merkle.{length-path_loop}
use post_quantum_uav_uav.Lms.SignVerify.{built_tree, sign_parts}

pub length-sign :
    (w : WolfCrypt) (documented : IsDocumented w) (lms : Lms) (q : ℕ)
    (message seed c signature : List ℕ)
    → length c ≡ 32
    → sign w lms q (some message) (some seed) c ≡ some signature
    → length signature ≡ 2180
length-sign w documented lms q message seed c signature hc e =
    let (dc, elements, hm, hs, same) = sign_parts w lms q message seed c signature e in
    omega (
      arith,
      ap (λ t. length t) same,
      length-append (put_u32 lmots_type) (c ++ elements),
      length-put_u32 lmots_type,
      length-append c elements,
      length-sign_chains w documented lms.identifier seed q dc 67 0 elements hs,
    )

pub sign-lt :
    (w : WolfCrypt) (lms : Lms) (q : ℕ) (message seed c signature : List ℕ)
    → sign w lms q (some message) (some seed) c ≡ some signature
    → q < 1024
unfolding sign
sign-lt w lms q message seed c signature e = ltb→lt q 1024 (guard-eq-some (ltb q 1024) _ e).0

pub length-extract_path :
    (w : WolfCrypt) (documented : IsDocumented w) (allocated : Bool) (old lms built : Lms)
    (identifier seed : List ℕ) (q : ℕ) (path : List ℕ)
    → initialize allocated old (some identifier) (some seed) ≡ (true, lms)
    → build_tree w lms ≡ (true, built)
    → extract_path built q ≡ some path
    → length path ≡ 320
unfolding extract_path
length-extract_path w documented allocated old lms built identifier seed q path hi hb hp =
    let (done, same, tree) = built_tree w allocated old lms built identifier seed hi hb in
    let (small, read) =
      guard-eq-some (ltb q 1024) _ (subst (λ l. extract_path l q ≡ some path) same hp) in
    let on_path : path_loop 10 (1024 + q) done ≡ path = cc in
    let lt = ltb→lt q 1024 small in
    rw (← on_path) (
      length-path_loop w identifier seed documented tree 10 (1024 + q) (omega arith) (omega arith)
        (omega arith))

pub extract_path_total :
    (w : WolfCrypt) (allocated : Bool) (old lms built : Lms) (identifier seed : List ℕ) (q : ℕ)
    → initialize allocated old (some identifier) (some seed) ≡ (true, lms)
    → build_tree w lms ≡ (true, built)
    → q < 1024
    → (path : List ℕ) × (extract_path built q ≡ some path)
unfolding extract_path
extract_path_total w allocated old lms built identifier seed q hi hb hq =
    let (done, same, tree) = built_tree w allocated old lms built identifier seed hi hb in
    (path_loop 10 (1024 + q) done, rw (same, lt→ltb q 1024 hq) refl)

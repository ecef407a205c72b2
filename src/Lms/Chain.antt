-- ===== src/Lms/Chain.antt =====
-- Hash chains of LmotsLms.cpp: walking on from where a signature stops leads to the chain's end.
use Prim.Native.Nat.add
use post_quantum_uav_uav.Prelude.{
  ℕ, zero, suc, ◌+◌, ◌-◌, ◌*◌, ◌<◌, ◌≡◌, refl, sym, subst, ap, ◌∙◌, Option, none, some, List, [],
  ◌∷◌, ◌++◌, arith, ◌>>=◌, >>=-eq-some, Option-cases, inl, inr, length, length-append, take, drop,
  slice, take-append, drop-append, drop-drop,
}
use post_quantum_uav_uav.Codec.{put_u16, put_u32}
use post_quantum_uav_uav.Crypto.{WolfCrypt, IsDocumented, hash}
use post_quantum_uav_uav.Crypto.Sha.{hash-IsDigest}
use post_quantum_uav_uav.Lms.Ots.{
  coefficient_w4, derive_private_element, chain_loop, chain_hash, public_chains, sign_chains,
  candidate_chains, max_chain,
}

pub coefficient_w4-lt : (bytes : List ℕ) (i : ℕ) → coefficient_w4 bytes i < 16
unfolding coefficient_w4
coefficient_w4-lt bytes i = ground arith

module _ (w : WolfCrypt) (identifier : List ℕ) (q i : ℕ) where
  -- A walk of `m + n` steps is a walk of `m` and then one of `n`.
  chain_loop-add :
      (m n j k : ℕ) (x z : List ℕ)
      → j + m ≡ k
      → chain_loop w identifier q i (m + n) j x ≡ some z
      → (y : List ℕ) × (chain_loop w identifier q i m j x ≡ some y)
        × (chain_loop w identifier q i n k y ≡ some z)
  unfolding chain_loop
  chain_loop-add zero n j k x z h e =
      let same : j ≡ k = omega arith in
      (
        x,
        refl,
        subst (λ (t : ℕ). chain_loop w identifier q i n t x ≡ some z) same (rw add.zero at e),
      )
  chain_loop-add (suc m) n j k x z h e =
      let walk : chain_loop w identifier q i (suc (m + n)) j x ≡ some z =
        subst (λ (t : ℕ). chain_loop w identifier q i t j x ≡ some z) (add.suc m n) e in
      let (next, hashed, rest) =
        >>=-eq-some (hash w (identifier ++ (put_u32 q ++ (put_u16 i ++ (j ∷ x))))) _ walk in
      let (y, front, back) = chain_loop-add m n (j + 1) k next z (omega arith) rest in
      (y, rw hashed front, back)

  -- Every result of a walk that starts at 32 bytes has 32 bytes.
  length-chain_loop :
      (documented : IsDocumented w) (n j : ℕ) (x z : List ℕ)
      → length x ≡ 32
      → chain_loop w identifier q i n j x ≡ some z
      → length z ≡ 32
  unfolding chain_loop
  length-chain_loop documented zero j x z h e = let same : x ≡ z = cc in rw (← same) h
  length-chain_loop documented (suc n) j x z h e =
      let (next, hashed, rest) = >>=-eq-some _ _ e in
      length-chain_loop documented n (j + 1) next z (hash-IsDigest w documented _ next hashed).0
        rest

  -- The whole chain passes through the element of a signature with coefficient `a`.
  chain_hash_through :
      (a : ℕ) (x z : List ℕ)
      → a < 16
      → chain_hash w identifier q i 0 max_chain x ≡ some z
      → (y : List ℕ) × (chain_hash w identifier q i 0 a x ≡ some y)
        × (chain_hash w identifier q i a max_chain y ≡ some z)
  unfolding chain_hash
  chain_hash_through a x z h e =
      chain_loop-add (a - 0) (15 - a) 0 a x z (omega arith)
        (subst (λ (t : ℕ). chain_loop w identifier q i t 0 x ≡ some z) whole e)
    where
      whole : 15 ≡ a - 0 + (15 - a)
      whole = omega arith

  length-chain_hash :
      (documented : IsDocumented w) (a b : ℕ) (x z : List ℕ)
      → length x ≡ 32
      → chain_hash w identifier q i a b x ≡ some z
      → length z ≡ 32
  unfolding chain_hash
  length-chain_hash documented a b x z h e = length-chain_loop documented (b - a) a x z h e

-- The parts of a successful round of `public_chains` and `sign_chains`.
element_round :
    (m : Option (List ℕ)) (f : List ℕ → Option (List ℕ)) (r : Option (List ℕ)) {all : List ℕ}
    → (m >>= λ x. f x >>= λ y. r >>= λ rest. some (y ++ rest)) ≡ some all
    → (x : List ℕ) × (y : List ℕ) × (rest : List ℕ) × (m ≡ some x)
      × (f x ≡ some y)
      × (r ≡ some rest)
      × (y ++ rest ≡ all)
element_round none f r e = cc
element_round (some x) f none e = elim (Option-cases (f x)) [
  | inl h ↦ cc (rw h at e)
  | inr (y, h) ↦ cc (rw h at e)
]
element_round (some x) f (some rest) e = elim (Option-cases (f x)) [
  | inl h ↦ cc (rw h at e)
  | inr (y, h) ↦ (x, y, rest, refl, h, refl, cc (rw h at e))
]

module _ (w : WolfCrypt) (documented : IsDocumented w) (identifier seed : List ℕ) (q : ℕ) where
  -- Each signature element is one hash long.
  pub length-sign_chains :
      (dc : List ℕ) (n i : ℕ) (ys : List ℕ)
      → sign_chains w identifier seed q dc n i ≡ some ys
      → length ys ≡ 32 * n
  unfolding sign_chains derive_private_element
  length-sign_chains dc zero i ys e = let same : [] ≡ ys = cc in rw (← same) refl
  length-sign_chains dc (suc n) i ys e =
      let (x, y, rest, hx, hy, hr, same) =
        element_round (derive_private_element w identifier seed q i)
          (chain_hash w identifier q i 0 (coefficient_w4 dc i))
          (sign_chains w identifier seed q dc n (i + 1)) e in
      rw (← same) (
        omega (
          arith,
          length-append y rest,
          length-chain_hash w identifier q i documented 0 (coefficient_w4 dc i) x y
              (hash-IsDigest w documented _ x hx).0 hy,
          length-sign_chains dc n (i + 1) rest hr,
        ))

  next_element :
      (sig y rest : List ℕ) (i : ℕ)
      → length y ≡ 32
      → drop (i * 32) sig ≡ y ++ rest
      → (slice (i * 32) 32 sig ≡ y) × (drop ((i + 1) * 32) sig ≡ rest)
  next_element sig y rest i h e = (
    ap (take 32) e ∙ take-append 32 y rest h,
    ap (λ (k : ℕ). drop k sig) (omega arith)
        ∙ sym (drop-drop 32 (i * 32) sig)
        ∙ ap (drop 32) e
        ∙ drop-append 32 y rest h,
  )

  -- The verifier's chains, from the elements of a signature on, end where the public key's do.
  pub candidate_chains-sign_chains :
      (dc sig : List ℕ) (n i : ℕ) (ends ys : List ℕ)
      → public_chains w identifier seed q n i ≡ some ends
      → sign_chains w identifier seed q dc n i ≡ some ys
      → drop (i * 32) sig ≡ ys
      → candidate_chains w identifier q dc sig n i ≡ some ends
  unfolding public_chains sign_chains candidate_chains derive_private_element
  candidate_chains-sign_chains dc sig zero i ends ys ep es hs = ep
  candidate_chains-sign_chains dc sig (suc n) i ends ys ep es hs =
      let (x, z, ends', hx, hz, he, same) =
        element_round (derive_private_element w identifier seed q i)
          (chain_hash w identifier q i 0 max_chain) (public_chains w identifier seed q n (i + 1))
          ep in
      let (x', y', ys', hx', hy', hr, same') =
        element_round (derive_private_element w identifier seed q i)
          (chain_hash w identifier q i 0 (coefficient_w4 dc i))
          (sign_chains w identifier seed q dc n (i + 1)) es in
      let (y, front, back) =
        chain_hash_through w identifier q i (coefficient_w4 dc i) x z (coefficient_w4-lt dc i) hz in
      let one : x ≡ x' = cc in
      let element : y' ≡ y = cc (one, front, hy') in
      let (read, rest) =
        next_element sig y' ys' i
          (length-chain_hash w identifier q i documented 0 (coefficient_w4 dc i) x' y'
            (hash-IsDigest w documented _ x' hx').0 hy')
          (hs ∙ sym same') in
      rw (
        read,
        element,
        back,
        candidate_chains-sign_chains dc sig n (i + 1) ends' ys' he hr rest,
        same,
      )

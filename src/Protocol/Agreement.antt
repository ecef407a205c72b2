-- ===== src/Protocol/Agreement.antt =====
-- ProposedUavProtocol.cpp: what two nodes with one transcript hash agree on.
use post_quantum_uav_uav.Prelude.{
  ℕ, ◌≤◌, ◌≡◌, sym, ◌∙◌, Option, some, List, [], ◌∷◌, length, take, arith, length-take, take-all,
  inl, inr, ◌⊎◌, ◌≢◌,
}
use post_quantum_uav_uav.Crypto.{WolfCrypt, hash}
use post_quantum_uav_uav.Crypto.Sha.{IsReliable}
use post_quantum_uav_uav.Protocol.Transcript.{timed_transcript_hash}
use native.Mathlib.Decide.{ℕ_discrete}
use mathlib.Core.List.{List-discrete}
use post_quantum_uav_uav.Protocol.Encoding.{
  IsIncremental, transcript, transcript-injective, timed_transcript_hash-hash, Short,
}

-- What a node puts into its transcript's hash.
pub record Inputs : Type 0 where
  pub sid : List ℕ
  pub m0 : List ℕ
  pub m1 : List ℕ
  pub m2 : List ℕ
  pub m2_length : ℕ
  pub m3_inner : List ℕ
  pub m3_inner_length : ℕ

-- Buffers that hold what their lengths say.
pub record IsReady (i : Inputs) : Type 0 where
  pub sid_size : length i.sid ≡ 32
  pub m0_size : length i.m0 ≡ 86
  pub m1_size : length i.m1 ≡ 102
  pub m2_size : i.m2_length ≤ length i.m2
  pub m2_short : i.m2_length ≤ 65535
  pub m3_size : i.m3_inner_length ≤ length i.m3_inner
  pub m3_short : i.m3_inner_length ≤ 65535

abbrev pub hash_of : WolfCrypt → Inputs → Option (List ℕ)
hash_of w i = timed_transcript_hash w i.sid i.m0 i.m1 i.m2 i.m2_length i.m3_inner i.m3_inner_length

-- The same identifier and the same four messages.
abbrev pub Agree : Inputs → Inputs → Type 0
Agree i j =
    (i.sid ≡ j.sid)
    × (i.m0 ≡ j.m0)
    × (i.m1 ≡ j.m1)
    × (take i.m2_length i.m2 ≡ take j.m2_length j.m2)
    × (take i.m3_inner_length i.m3_inner ≡ take j.m3_inner_length j.m3_inner)

-- The string that a node's transcript stands for: version, domain, identifier, and each message behind
-- its length.
abbrev pub whole_of : Inputs → List ℕ
whole_of i =
    transcript i.sid (i.m0 ∷ i.m1 ∷ take i.m2_length i.m2 ∷ take i.m3_inner_length i.m3_inner ∷ [])

hash_of-whole_of :
    (w : WolfCrypt) (i : Inputs)
    → IsReliable w
    → IsIncremental w
    → IsReady i
    → hash_of w i ≡ hash w (whole_of i)
hash_of-whole_of w i reliable incremental ready =
    timed_transcript_hash-hash w i.sid i.m0 i.m1 i.m2 i.m3_inner i.m2_length i.m3_inner_length
      reliable incremental (omega (arith, ready.m0_size)) (omega (arith, ready.m1_size))
      ready.m2_size ready.m2_short ready.m3_size ready.m3_short
    ∙ (λ k. hash w (
        transcript (take-all 32 i.sid (omega (arith, ready.sid_size)) k) (
          take-all 86 i.m0 (omega (arith, ready.m0_size)) k
          ∷ take-all 102 i.m1 (omega (arith, ready.m1_size)) k
          ∷ take i.m2_length i.m2
          ∷ take i.m3_inner_length i.m3_inner
          ∷ [])))

messages-Short :
    (i : Inputs)
    → IsReady i
    → Short (i.m0 ∷ i.m1 ∷ take i.m2_length i.m2 ∷ take i.m3_inner_length i.m3_inner ∷ [])
messages-Short i ready = (
  omega (arith, ready.m0_size),
  (
    omega (arith, ready.m1_size),
    (
      omega (arith, length-take i.m2_length i.m2, ready.m2_short),
      (omega (arith, length-take i.m3_inner_length i.m3_inner, ready.m3_short), tt),
    ),
  ),
)

-- The two nodes' own strings are different, and have one SHA-256 digest.
abbrev pub Collide : WolfCrypt → Inputs → Inputs → Type 0
Collide w i j =
    (whole_of i ≢ whole_of j)
    × (digest : List ℕ) × (hash w (whole_of i) ≡ some digest)
    × (hash w (whole_of j) ≡ some digest)

-- Where wolfSSL takes a string in parts and reports no error: two nodes, with messages in buffers of
-- their sizes, that compute one transcript hash have the same identifier and the same four messages,
-- or the two strings that their own transcripts stand for are different and have that hash as their
-- SHA-256 digest.
pub timed_transcript_hash_binds :
    (w : WolfCrypt) (i j : Inputs)
    → IsReliable w
    → IsIncremental w
    → IsReady i
    → IsReady j
    → (digest : List ℕ) → hash_of w i ≡ some digest
    → hash_of w j ≡ some digest
    → Agree i j ⊎ Collide w i j
timed_transcript_hash_binds w i j reliable incremental ready ready' digest e e' =
    elim (List-discrete ℕ_discrete (whole_of i) (whole_of j)) [
      | yes same ↦ inl (
          transcript-injective i.sid j.sid i.m0 j.m0 i.m1 j.m1 _ _ _ _ ready.sid_size
            ready'.sid_size (messages-Short i ready) (messages-Short j ready') same)
      | no different ↦ inr (
        different,
        digest,
        sym (hash_of-whole_of w i reliable incremental ready) ∙ e,
        sym (hash_of-whole_of w j reliable incremental ready') ∙ e',
      )
    ]

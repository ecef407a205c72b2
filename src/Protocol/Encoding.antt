-- ===== src/Protocol/Encoding.antt =====
-- ProposedUavProtocol.cpp: `timedTranscriptHash` is a hash of one string, and that string determines
-- the fields.
use post_quantum_uav_uav.Prelude.{
  ℕ, ◌*◌, ◌^◌, ◌≤◌, ◌<◌, ◌≡◌, refl, sym, ap, ◌∙◌, Option, List, [], ◌∷◌, ◌++◌, length, take, drop,
  get_or, All, arith, append_assoc, append-nil, length-append, length-take, ltb-false,
  append-left_cancel,
}
use post_quantum_uav_uav.Prelude.Int.{ℤ}
use post_quantum_uav_uav.Codec.{put_u16, get_u16}
use post_quantum_uav_uav.Codec.Integers.{get_u16-put_u16, length-put_u16}
use post_quantum_uav_uav.Crypto.{WolfCrypt, finish, succeeded, hash}
use post_quantum_uav_uav.Crypto.Sha.{IsReliable, hash-update}
use post_quantum_uav_uav.Protocol.Transcript.{
  update_if, update_fields, timed_transcript_hash, domain_transcript,
}

-- wolfSSL's updates take a string in parts.
pub record IsIncremental (w : WolfCrypt) : Type 0 where
  pub in_parts :
      (s : w.Sha256) (a b : List ℕ)
      → w.sha256_update (w.sha256_update s a).1 b ≡ w.sha256_update s (a ++ b)

-- Each field behind its length.
abbrev encode : List (List ℕ) → List ℕ
encode [] = []
encode (x ∷ xs) = put_u16 (length x) ++ (x ++ encode xs)

-- What the loop hashes of each field.
abbrev prefixes : List (List ℕ × ℕ) → List (List ℕ)
prefixes [] = []
prefixes ((bytes, n) ∷ fields) = take n bytes ∷ prefixes fields

-- Each field has as many bytes as it is said to have, and its length fits 16 bits.
abbrev Hashable : List (List ℕ × ℕ) → Type 0
Hashable = All (λ field. (field.1 ≤ length field.0) × (field.1 ≤ 65535))

module _ (w : WolfCrypt) (reliable : IsReliable w) (incremental : IsIncremental w) where
  update_if_lem :
      (s : w.Sha256) (a b : List ℕ)
      → update_if w (w.sha256_update s a) b ≡ w.sha256_update s (a ++ b)
  update_if_lem s a b = rw (reliable.sha256_update s a) (incremental.in_parts s a b)

  update_fields-encode :
      (fields : List (List ℕ × ℕ)) (s : w.Sha256) (a : List ℕ)
      → Hashable fields
      → update_fields w fields (w.sha256_update s a)
        ≡ w.sha256_update s (a ++ encode (prefixes fields))
  unfolding update_fields
  update_fields-encode [] s a h = ap (w.sha256_update s) (sym (append-nil a))
  update_fields-encode ((bytes, n) ∷ fields) s a (here, there) =
      rw (reliable.sha256_update s a, ltb-false 65535 n here.1)
        (ap (update_fields w fields) (
            ap (λ u. update_if w u (take n bytes)) (incremental.in_parts s a (put_u16 n))
            ∙ update_if_lem s (a ++ put_u16 n) (take n bytes))
          ∙ update_fields-encode fields s ((a ++ put_u16 n) ++ take n bytes) there
          ∙ ap (w.sha256_update s) (
              append_assoc (a ++ put_u16 n) (take n bytes) (encode (prefixes fields))
              ∙ append_assoc a (put_u16 n) (take n bytes ++ encode (prefixes fields))
              ∙ ap (λ (k : ℕ). a ++ (put_u16 k ++ (take n bytes ++ encode (prefixes fields))))
                  size))
    where
      size : n ≡ length (take n bytes)
      size = omega (arith, length-take n bytes, here)

length-encode :
    (fields : List (List ℕ × ℕ))
    → Hashable fields
    → length (encode (prefixes fields)) ≤ 65537 * length fields
length-encode [] h = omega arith
length-encode ((bytes, n) ∷ fields) h =
    let size =
      length-append (put_u16 (length (take n bytes))) (take n bytes ++ encode (prefixes fields)) in
    omega (
      arith,
      size,
      length-put_u16 (length (take n bytes)),
      length-append (take n bytes) (encode (prefixes fields)),
      length-take n bytes,
      h.0,
      length-encode fields h.1,
    )

-- What is hashed: a version, a domain, the session's identifier, and each message behind its length.
abbrev pub transcript : List ℕ → List (List ℕ) → List ℕ
transcript sid messages = 1 ∷ domain_transcript ∷ (sid ++ encode messages)

-- Where wolfSSL takes a string in parts and reports no error, the transcript's hash is the hash of one
-- string: version, domain, identifier, and M0, M1, M2 and M3's inner part, each behind its length, as
-- far as the lengths given reach.
pub timed_transcript_hash-hash :
    (w : WolfCrypt) (sid m0 m1 m2 m3_inner : List ℕ) (m2_length m3_inner_length : ℕ)
    → IsReliable w
    → IsIncremental w
    → 86 ≤ length m0
    → 102 ≤ length m1
    → m2_length ≤ length m2
    → m2_length ≤ 65535
    → m3_inner_length ≤ length m3_inner
    → m3_inner_length ≤ 65535
    → timed_transcript_hash w sid m0 m1 m2 m2_length m3_inner m3_inner_length
      ≡ hash w (
          transcript
            (take 32 sid)
            (take 86 m0 ∷ take 102 m1 ∷ take m2_length m2 ∷ take m3_inner_length m3_inner ∷ []))
unfolding timed_transcript_hash
timed_transcript_hash-hash w sid m0 m1 m2 m3_inner m2_length m3_inner_length reliable incremental h0
      h1 h2 l2 h3 l3 =
    ap (λ u. outcome (update_fields w fields (update_if w u (take 32 sid)))) first
    ∙ ap (λ u. outcome (update_fields w fields u))
        (update_if_lem w reliable incremental w.init_sha256.1 (1 ∷ domain_transcript ∷ [])
          (take 32 sid))
    ∙ ap outcome (
        update_fields-encode w reliable incremental fields w.init_sha256.1
          (1 ∷ domain_transcript ∷ take 32 sid) sizes)
    ∙ sym (
        hash-update w reliable whole (omega arith) (
          omega (
            arith,
            length-append (take 32 sid) (encode (prefixes fields)),
            length-take 32 sid,
            length-encode fields sizes,
          )))
  where
    outcome : ℤ × w.Sha256 → Option (List ℕ)
    outcome u = succeeded (finish w.sha256_final u)

    fields : List (List ℕ × ℕ)
    fields = (m0, 86) ∷ (m1, 102) ∷ (m2, m2_length) ∷ (m3_inner, m3_inner_length) ∷ []

    whole : List ℕ
    whole = transcript (take 32 sid) (prefixes fields)

    sizes : Hashable fields
    sizes = ((h0, omega arith), ((h1, omega arith), ((h2, l2), ((h3, l3), tt))))

    first :
        update_if w w.init_sha256 (1 ∷ domain_transcript ∷ [])
        ≡ w.sha256_update w.init_sha256.1 (1 ∷ domain_transcript ∷ [])
    first = rw reliable.sha256_init refl

abbrev pub Short : List (List ℕ) → Type 0
Short = All (λ x. length x < 2 ^ 16)

encode-injective :
    (xs ys : List (List ℕ))
    → length xs ≡ length ys
    → Short xs
    → Short ys
    → encode xs ≡ encode ys
    → xs ≡ ys
encode-injective [] [] h sx sy e = refl
encode-injective [] (y ∷ ys) h sx sy e = absurd (omega arith)
encode-injective (x ∷ xs) [] h sx sy e = absurd (omega arith)
encode-injective (x ∷ xs) (y ∷ ys) h (sx, sxs) (sy, sys) e =
    let size : length x ≡ length y =
      sym (get_u16-put_u16 (length x) _ sx) ∙ ap get_u16 e ∙ get_u16-put_u16 (length y) _ sy in
    let (front, rest) =
      append-left_cancel (put_u16 (length x)) (put_u16 (length y)) (x ++ encode xs) (y ++ encode ys)
        (length-put_u16 (length x) ∙ sym (length-put_u16 (length y))) e in
    let (here, there) = append-left_cancel x y (encode xs) (encode ys) size rest in
    let tail = encode-injective xs ys (omega arith) sxs sys there in λ k. here k ∷ tail k

-- Two sessions that hash the same string have the same identifier and the same four messages, however
-- long M2 and M3's inner part are.
pub transcript-injective :
    (sid sid' m0 m0' m1 m1' m2 m2' m3 m3' : List ℕ)
    → length sid ≡ 32
    → length sid' ≡ 32
    → All (λ m. length m < 2 ^ 16) (m0 ∷ m1 ∷ m2 ∷ m3 ∷ [])
    → All (λ m. length m < 2 ^ 16) (m0' ∷ m1' ∷ m2' ∷ m3' ∷ [])
    → transcript sid (m0 ∷ m1 ∷ m2 ∷ m3 ∷ []) ≡ transcript sid' (m0' ∷ m1' ∷ m2' ∷ m3' ∷ [])
    → (sid ≡ sid') × (m0 ≡ m0') × (m1 ≡ m1') × (m2 ≡ m2') × (m3 ≡ m3')
transcript-injective sid sid' m0 m0' m1 m1' m2 m2' m3 m3' hs hs' short short' e =
    let (ids, rest) =
      append-left_cancel sid sid' (encode (m0 ∷ m1 ∷ m2 ∷ m3 ∷ []))
        (encode (m0' ∷ m1' ∷ m2' ∷ m3' ∷ [])) (hs ∙ sym hs') (ap (drop 2) e) in
    let same =
      encode-injective (m0 ∷ m1 ∷ m2 ∷ m3 ∷ []) (m0' ∷ m1' ∷ m2' ∷ m3' ∷ []) refl short short'
        rest in
    (ids, ap (message 0) same, ap (message 1) same, ap (message 2) same, ap (message 3) same)
  where
    message : ℕ → List (List ℕ) → List ℕ
    message i ms = get_or ms i []

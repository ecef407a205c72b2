-- ===== src/Crypto/Total.antt =====
-- The helpers of CryptoHelpers.cpp succeed where wolfSSL reports no error.
use post_quantum_uav_uav.Prelude.{
  ℕ, zero, suc, ◌+◌, ◌-◌, ◌%◌, ◌≤◌, ◌<◌, ◌≡◌, refl, Bool, true, false, some, none, List, ltb→lt, [],
  ◌∷◌, ◌++◌, ltb, ltb-false, ◌==◌, if◌then◌else◌, if-cases, length, length-append, length-take,
  take, replicate, arith,
}
use post_quantum_uav_uav.Codec.{put_u32}
use post_quantum_uav_uav.Codec.Integers.{length-put_u32}
use post_quantum_uav_uav.Crypto.{
  WolfCrypt, IsDocumented, Result, ok, sha256, hmac, hmac_calls, hmac_sha256, hkdf_expand,
  hkdf_sha256, uint32_max, derive_lms_seed, lms_seed_label,
}
use post_quantum_uav_uav.Crypto.Sha.{
  IsReliable, IsReliableHmac, sha256_calls_total, finish-reliable, hmac-IsDigest,
  hmac_sha256-IsDigest,
}

-- The call gives a result.
abbrev pub Succeeds : Result (List ℕ) → Type 0
Succeeds r = (digest : List ℕ) × (r ≡ ok digest)

pub sha256_total :
    (w : WolfCrypt)
    → IsReliable w
    → (bytes : List ℕ) (n : ℕ) → n ≤ uint32_max
    → Succeeds (sha256 w (some bytes) n)
unfolding sha256
sha256_total w reliable bytes n h =
    let (d, e) = sha256_calls_total w reliable (take n bytes) (n == 0) in
    (d, rw (ltb-false uint32_max n h, e) refl)

module _ (w : WolfCrypt) (reliable : IsReliableHmac w) where
  hmac_calls-Succeeds :
      (key bytes : List ℕ) (empty : Bool) → Succeeds (hmac_calls w key bytes empty)
  unfolding hmac_calls
  hmac_calls-Succeeds key bytes true = (
    (w.hmac_final (w.hmac_set_key key).1).1,
    rw (reliable.set_key key)
        (finish-reliable w.hmac_final (w.hmac_set_key key) reliable.final (reliable.set_key key)),
  )
  hmac_calls-Succeeds key bytes false = (
    (w.hmac_final (w.hmac_update (w.hmac_set_key key).1 bytes).1).1,
    rw (reliable.set_key key) (
        finish-reliable w.hmac_final (w.hmac_update (w.hmac_set_key key).1 bytes) reliable.final
          (reliable.update (w.hmac_set_key key).1 bytes)),
  )

  pub hmac_sha256-Succeeds :
      (key bytes : List ℕ) (n m : ℕ)
      → n ≤ uint32_max
      → m ≤ uint32_max
      → Succeeds (hmac_sha256 w (some key) n (some bytes) m)
  unfolding hmac_sha256
  hmac_sha256-Succeeds key bytes n m hn hm =
      let (d, e) = hmac_calls-Succeeds (take n key) (take m bytes) (m == 0) in
      (d, rw (ltb-false uint32_max n hn, ltb-false uint32_max m hm) e)

  -- An HMAC of short strings.
  hmac-Succeeds :
      (key bytes : List ℕ)
      → length key ≤ uint32_max
      → length bytes ≤ uint32_max
      → Succeeds (hmac w key bytes)
  unfolding hmac
  hmac-Succeeds key bytes hk hb = hmac_sha256-Succeeds key bytes (length key) (length bytes) hk hb

  -- The call gives `n` bytes.
  abbrev pub SucceedsAt : ℕ → Result (List ℕ) → Type 0
  SucceedsAt n r = (output : List ℕ) × (r ≡ ok output) × (length output ≡ n)

  copied_some :
      (remaining : ℕ) (block : List ℕ)
      → length block ≡ 32
      → 0 < remaining
      → let copy = take (if ltb remaining 32 then remaining else 32) block in
        (0 < length copy) × (length copy ≤ remaining)
  copied_some remaining block size h =
      if-cases (λ (k : ℕ). (0 < length (take k block)) × (length (take k block) ≤ remaining))
        (ltb remaining 32) remaining 32
        (λ less. omega (arith, ltb→lt remaining 32 less, length-take remaining block))
        (λ more. omega (arith, ltb-false→le remaining 32 more, length-take 32 block))
    where
      ltb-false→le : (a b : ℕ) → ltb a b ≡ false → b ≤ a
      ltb-false→le a b h = ground arith

  hkdf_expand-Succeeds :
      IsDocumented w
      → (rounds : ℕ) (prk info previous : List ℕ) (counter : ℕ) (output : List ℕ) (n : ℕ)
      → length prk ≤ 32
      → length previous ≤ 32
      → length info ≤ 128
      → length output ≤ n
      → n ≤ length output + rounds
      → SucceedsAt n (hkdf_expand w rounds prk info previous counter output n)
  unfolding hkdf_expand
  hkdf_expand-Succeeds documented zero prk info previous counter output n hk hp hi ho hn =
      (output, refl, omega arith)
  hkdf_expand-Succeeds documented (suc rounds) prk info previous counter output n hk hp hi ho hn =
      let input = previous ++ (info ++ (counter ∷ [])) in
      let (block, e) = hmac-Succeeds prk input (omega arith) (
        omega (
          arith,
          length-append previous (info ++ (counter ∷ [])),
          length-append info (counter ∷ []),
        )) in
      let size = (hmac-IsDigest w documented prk input block e).0 in
      let remaining = n - length output in
      let copy = take (if ltb remaining 32 then remaining else 32) block in
      if-cases (SucceedsAt n) (ltb (length output) n) _ _
        (λ h.
          let less = ltb→lt (length output) n h in
          let (some_copied, fits) = copied_some remaining block size (omega arith) in
          let grown = length-append output copy in
          let (okm, done, long) =
            hkdf_expand-Succeeds documented rounds prk info block ((counter + 1) % 256)
              (output ++ copy) n hk (omega arith) hi (omega arith) (omega arith) in
          (okm, rw e done, long))
        (λ h. (output, refl, full (length output) n ho h))
    where
      full : (a b : ℕ) → a ≤ b → ltb a b ≡ false → a ≡ b
      full a b h k = ground arith

  positive : (k : ℕ) → 0 < k → (k == 0) ≡ false
  positive k h = ground arith

  -- HKDF of strings that are not empty, for an output of 1 to 8160 bytes.
  pub hkdf_sha256-Succeeds :
      IsDocumented w
      → (ikm salt info : List ℕ) (ikm_length salt_length info_length n : ℕ)
      → ikm_length ≤ uint32_max
      → 0 < salt_length
      → salt_length ≤ uint32_max
      → info_length ≤ 128
      → 0 < n
      → n ≤ 8160
      → SucceedsAt n
          (hkdf_sha256 w (some ikm) ikm_length (some salt) salt_length (some info) info_length n)
  unfolding hkdf_sha256
  hkdf_sha256-Succeeds documented ikm salt info ikm_length salt_length info_length n hk hp hs hi hn
        hm =
      let (prk, e) = hmac_sha256-Succeeds salt ikm salt_length ikm_length hs hk in
      let size =
        (hmac_sha256-IsDigest w documented (some salt) salt_length (some ikm) ikm_length prk e).0 in
      let (okm, e', long) =
        hkdf_expand-Succeeds documented n prk (take info_length info) [] 1 [] n (omega arith)
          (omega arith) (omega (arith, length-take info_length info)) (omega arith) (omega arith) in
      (
        okm,
        rw
            (
              ltb-false uint32_max ikm_length hk,
              ltb-false uint32_max salt_length hs,
              ltb-false uint32_max info_length (omega arith),
              positive n hn,
              ltb-false 8160 n hm,
              positive salt_length hp,
              e,
              ltb-false 128 info_length hi,
            )
            e',
        long,
      )

  -- The same without a salt.
  hkdf_sha256-no_salt :
      IsDocumented w
      → (ikm info : List ℕ) (ikm_length info_length n : ℕ) → ikm_length ≤ uint32_max
      → info_length ≤ 128
      → 0 < n
      → n ≤ 8160
      → SucceedsAt n (hkdf_sha256 w (some ikm) ikm_length none 0 (some info) info_length n)
  unfolding hkdf_sha256
  hkdf_sha256-no_salt documented ikm info ikm_length info_length n hk hi hn hm =
      let zeros = replicate {A = ℕ} 32 0 in
      let (prk, e) = hmac_sha256-Succeeds zeros ikm 32 ikm_length (omega arith) hk in
      let size =
        (hmac_sha256-IsDigest w documented (some zeros) 32 (some ikm) ikm_length prk e).0 in
      let (okm, e', long) =
        hkdf_expand-Succeeds documented n prk (take info_length info) [] 1 [] n (omega arith)
          (omega arith) (omega (arith, length-take info_length info)) (omega arith) (omega arith) in
      (
        okm,
        rw
            (
              ltb-false uint32_max ikm_length hk,
              ltb-false uint32_max info_length (omega arith),
              positive n hn,
              ltb-false 8160 n hm,
              e,
              ltb-false 128 info_length hi,
            )
            e',
        long,
      )

  -- The seed of a node's tree has 32 bytes.
  pub derive_lms_seed-Succeeds :
      IsDocumented w
      → (puf_root device_id identifier : List ℕ) (version : ℕ)
      → SucceedsAt 32 (derive_lms_seed w (some puf_root) (some device_id) version (some identifier))
  unfolding derive_lms_seed
  derive_lms_seed-Succeeds documented puf_root device_id identifier version =
      let info = lms_seed_label ++ (take 32 device_id ++ (put_u32 version ++ take 16 identifier)) in
      hkdf_sha256-no_salt documented puf_root info 32 (length info) 32 (omega arith)
        (omega (
          arith,
          length-append (take 32 device_id) (put_u32 version ++ take 16 identifier),
          length-append (put_u32 version) (take 16 identifier),
          length-put_u32 version,
          length-take 32 device_id,
          length-take 16 identifier,
        ))
        (omega arith) (omega arith)

-- ===== src/Protocol/Transcript.antt =====
-- `computeSid0`, `timedTranscriptHash`, `deriveSessionKeys` and `computeConfirmationTag`. The timers
-- are left out; a call that returns false is `none`.
use post_quantum_uav_uav.Prelude.{
  ℕ, not, ◌||◌, Option, some, List, [], ◌∷◌, ◌++◌, ltb, if◌then◌else◌, length, take, slice, ◌>>=◌,
}
use post_quantum_uav_uav.Prelude.Int.{ℤ, negsuc, is_zero}
use post_quantum_uav_uav.Codec.{put_u16}
use post_quantum_uav_uav.Crypto.{WolfCrypt, finish, succeeded, sha256, hkdf_sha256, hmac_sha256}

abbrev domain_sid0 : ℕ
domain_sid0 = 0x30

abbrev pub domain_transcript : ℕ
domain_transcript = 0x34

abbrev pub domain_uav_ake : ℕ
domain_uav_ake = 0x35

abbrev pub domain_b_confirm : ℕ
domain_b_confirm = 0x36

abbrev pub domain_a_confirm : ℕ
domain_a_confirm = 0x37

-- What `input` holds once `offset` has gone through it.
abbrev pub sid0_input : List ℕ → List ℕ → List ℕ
sid0_input m0 m1 = 1 ∷ domain_sid0 ∷ (put_u16 86 ++ (take 86 m0 ++ (put_u16 102 ++ take 102 m1)))

-- The version, a domain and the transcript's hash with its length: `info` and the tags' `input`.
abbrev pub tagged : ℕ → List ℕ → List ℕ
tagged domain transcript_hash = 1 ∷ domain ∷ (put_u16 32 ++ take 32 transcript_hash)

module _ (w : WolfCrypt) where
  unfoldable pub compute_sid0 : List ℕ → List ℕ → Option (List ℕ)
  compute_sid0 m0 m1 = succeeded (sha256 w (some (sid0_input m0 m1)) 194)

  -- `if (ret == 0) ret = wc_Sha256Update(...)`
  abbrev pub update_if : ℤ × w.Sha256 → List ℕ → ℤ × w.Sha256
  update_if (ret, sha) bytes = if is_zero ret then w.sha256_update sha bytes else (ret, sha)

  -- `for (const auto& field : fields)`; a field is its data and its length.
  unfoldable pub update_fields : List (List ℕ × ℕ) → ℤ × w.Sha256 → ℤ × w.Sha256
  update_fields [] state = state
  update_fields ((bytes, length) ∷ fields) (ret, sha) =
      let rest =
        update_fields fields
          (update_if (w.sha256_update sha (put_u16 length)) (take length bytes)) in
      if not (is_zero ret) || ltb 65535 length then (negsuc 0, sha) else rest

  unfoldable pub timed_transcript_hash :
      List ℕ → List ℕ → List ℕ → List ℕ → ℕ → List ℕ → ℕ → Option (List ℕ)
  timed_transcript_hash sid m0 m1 m2 m2_length m3_inner m3_inner_length =
      let state = update_if w.init_sha256 (1 ∷ domain_transcript ∷ []) in
      let state = update_if state (take 32 sid) in
      succeeded (
        finish w.sha256_final (
          update_fields ((m0, 86) ∷ (m1, 102) ∷ (m2, m2_length) ∷ (m3_inner, m3_inner_length) ∷ [])
            state))

  -- The session key, and the confirmation keys of A and B.
  unfoldable pub derive_session_keys : List ℕ → List ℕ → Option (List ℕ × List ℕ × List ℕ)
  derive_session_keys shared_secret transcript_hash =
      succeeded (
        hkdf_sha256 w (some shared_secret) 32 (some transcript_hash) 32
          (some (tagged domain_uav_ake transcript_hash)) 36 96)
      >>= λ material. some (slice 0 32 material, slice 32 32 material, slice 64 32 material)

  unfoldable pub compute_confirmation_tag : ℕ → List ℕ → List ℕ → Option (List ℕ)
  compute_confirmation_tag domain confirmation_key transcript_hash =
      succeeded (hmac_sha256 w (some confirmation_key) 32 (some (tagged domain transcript_hash)) 36)

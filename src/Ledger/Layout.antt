-- ===== src/Ledger/Layout.antt =====
-- The packets of both sides, field by field: what the client's requests and the server's replies hold.
use post_quantum_uav_uav.Prelude.{
  ℕ, ◌+◌, ◌-◌, ◌^◌, ◌≤◌, ◌<◌, ◌≡◌, refl, sym, ap, ◌∙◌, some, List, [], ◌∷◌, ◌++◌, suc, All,
  All-append, All-take, length, take, drop, replicate, length-replicate, All-replicate, write_at,
  write_at-last, write_all, places, padded, write_all-zeros, joined, joined-last, length-joined,
  All-joined, Sized, Sized-append, total, total-append, replicate-append, append_assoc, append-nil,
  length-append, take-append, drop-append, arith, slice, joined-slice, get_or-slice,
}
use post_quantum_uav_uav.Codec.{IsByte, byte_at, put_u32, get_u32}
use post_quantum_uav_uav.Codec.Integers.{length-put_u32, get_u32-put_u32, get_u32-take}
use post_quantum_uav_uav.Crypto.{WolfCrypt, ok, hmac, hmac_sha256}
use post_quantum_uav_uav.Crypto.Sha.{hmac_sha256-hmac, IsDigest}
use post_quantum_uav_uav.Ledger.Wire.{gcs_ledger_hmac_key, compute_tag, with_tag}
use post_quantum_uav_uav.Ledger.Server.{tagged}

-- Python's HMAC and wolfSSL's agree under the key that both sides have, and give digests.
pub record Agrees (w : WolfCrypt) (tag : List ℕ → List ℕ) : Type 0 where
  pub same :
      (bytes : List ℕ) → length bytes ≤ 368 → hmac w gcs_ledger_hmac_key bytes ≡ ok (tag bytes)
  pub digest : (bytes : List ℕ) → IsDigest (tag bytes)

-- The fields of a packet before its tag: with their gaps, and the gap at the end.
abbrev pub body_fields : List (ℕ × ℕ × List ℕ) → ℕ → List (ℕ × List ℕ)
body_fields fields trail = padded fields ++ ((trail, replicate trail 0) ∷ [])

abbrev pub packet_fields : (List ℕ → List ℕ) → List (ℕ × ℕ × List ℕ) → ℕ → List (ℕ × List ℕ)
packet_fields tag fields trail =
    body_fields fields trail ++ ((32, tag (joined (body_fields fields trail))) ∷ [])

-- The packet of `n` bytes with these fields.
pub packet : (List ℕ → List ℕ) → List (ℕ × ℕ × List ℕ) → ℕ → List ℕ
packet tag fields trail = joined (packet_fields tag fields trail)

module _ (fields : List (ℕ × ℕ × List ℕ)) (trail n : ℕ) (sized : Sized (padded fields))
    (size : total (padded fields) + trail + 32 ≡ n) where
  body : List ℕ
  body = joined (body_fields fields trail)

  body_sized : Sized (body_fields fields trail)
  body_sized = Sized-append (padded fields) _ sized (length-replicate {A = ℕ} trail 0, tt)

  length-body : length body ≡ n - 32
  unfolding body
  length-body = omega (
    arith,
    length-joined (body_fields fields trail) body_sized,
    total-append (padded fields) ((trail, replicate trail 0) ∷ []),
  )

  abbrev pub buffer : List ℕ
  buffer = write_all (places 0 fields) (replicate n 0)

  buffer-body : buffer ≡ body ++ replicate 32 0
  unfolding body
  buffer-body =
      write_all-zeros fields n (trail + 32) sized (omega arith)
      ∙ ap (◌++◌ (joined (padded fields))) (replicate-append trail 32 0)
      ∙ sym (append_assoc (joined (padded fields)) (replicate trail 0) (replicate 32 0))
      ∙ ap (λ t. t ++ replicate 32 0) (joined-last (padded fields) trail (replicate trail 0))

  take-buffer : take (n - 32) buffer ≡ body
  take-buffer =
      ap (take (n - 32)) buffer-body ∙ take-append (n - 32) body (replicate 32 0) length-body

  write-buffer : (t : List ℕ) → length t ≡ 32 → write_at (n - 32) t buffer ≡ body ++ t
  write-buffer t ht =
      ap (write_at (n - 32) t) buffer-body ∙ write_at-last (n - 32) 32 body t length-body ht

  module _ (tag : List ℕ → List ℕ) (digest : (bytes : List ℕ) → IsDigest (tag bytes)) where
    packet-parts : packet tag fields trail ≡ body ++ tag body
    unfolding packet body
    packet-parts = sym (joined-last (body_fields fields trail) 32 _)

    -- What the server sends.
    pub tagged-packet : tagged tag n buffer ≡ packet tag fields trail
    unfolding tagged
    tagged-packet =
        ap (λ t. write_at (n - 32) (tag t) buffer) take-buffer
        ∙ write-buffer (tag body) (digest body).0
        ∙ sym packet-parts

    pub length-packet : length (packet tag fields trail) ≡ n
    length-packet =
        ap length packet-parts
        ∙ omega (arith, length-append body (tag body), length-body, (digest body).0)

    take-packet : take (n - 32) (packet tag fields trail) ≡ body
    take-packet = ap (take (n - 32)) packet-parts ∙ take-append (n - 32) body (tag body) length-body

    drop-packet : drop (n - 32) (packet tag fields trail) ≡ tag body
    drop-packet = ap (drop (n - 32)) packet-parts ∙ drop-append (n - 32) body (tag body) length-body

    pub packet-sealed :
        let p = packet tag fields trail in drop (length p - 32) p ≡ tag (take (length p - 32) p)
    packet-sealed = rw length-packet (drop-packet ∙ ap tag (sym take-packet))

    pub packet_sized : Sized (packet_fields tag fields trail)
    unfolding body
    packet_sized = Sized-append (body_fields fields trail) _ body_sized ((digest body).0, tt)

    pub packet-bytes :
        All (λ field. All IsByte field.1) (padded fields) → All IsByte (packet tag fields trail)
    unfolding packet body
    packet-bytes h = All-joined IsByte (packet_fields tag fields trail) (
        All-append (λ field. All IsByte field.1) (body_fields fields trail) _
          (All-append (λ field. All IsByte field.1) (padded fields) _ h
            (All-replicate IsByte trail 0 (omega arith), tt))
          ((digest body).1, tt))

  module _ (w : WolfCrypt) (tag : List ℕ → List ℕ) (agrees : Agrees w tag) (fits : n ≤ 400) where
    -- What the client sends.
    pub with_tag-packet : with_tag w n buffer ≡ some (packet tag fields trail)
    unfolding with_tag compute_tag
    with_tag-packet =
        let computed : hmac_sha256 w (some gcs_ledger_hmac_key) 32 (some buffer) (n - 32)
            ≡ ok (tag body) =
          hmac_sha256-hmac w gcs_ledger_hmac_key buffer (n - 32)
            (omega (arith, ap length buffer-body, length-append body (replicate 32 0), length-body))
          ∙ ap (hmac w gcs_ledger_hmac_key) take-buffer
          ∙ agrees.same body (omega (arith, length-body)) in
        rw computed (
          ap some
            (write-buffer (tag body) (agrees.digest body).0 ∙ sym (packet-parts tag agrees.digest)))

    pub packet-IsSealed :
        let p = packet tag fields trail in
        hmac w gcs_ledger_hmac_key (take (length p - 32) p) ≡ ok (drop (length p - 32) p)
    packet-IsSealed =
        rw (length-packet tag agrees.digest, take-packet tag agrees.digest)
          (agrees.same body (omega (arith, length-body))
            ∙ ap ok (sym (drop-packet tag agrees.digest)))

-- The fields of a packet, by their place among the fields.
module _ (tag : List ℕ → List ℕ) (fields : List (ℕ × ℕ × List ℕ)) (trail : ℕ)
    (sized : Sized (packet_fields tag fields trail)) where
  abbrev pub all_fields : List (ℕ × List ℕ)
  all_fields = packet_fields tag fields trail

  pub slice-packet :
      (i offset k : ℕ) (bytes : List ℕ)
      → all_fields ≡ take i all_fields ++ ((k, bytes) ∷ drop (suc i) all_fields)
      → total (take i all_fields) ≡ offset
      → length bytes ≡ k
      → slice offset k (packet tag fields trail) ≡ bytes
  unfolding packet
  slice-packet i offset k bytes split at size =
      let before = take i all_fields in
      let after = drop (suc i) all_fields in
      ap (λ (f : List (ℕ × List ℕ)). slice offset k (joined f)) split
      ∙ ap (λ (o : ℕ). slice o k (joined (before ++ ((k, bytes) ∷ after)))) (sym at)
      ∙ joined-slice before after k bytes
          (All-take (λ field. length field.1 ≡ field.0) i all_fields sized) size

  -- A number in a packet.
  pub word-packet :
      (i offset v : ℕ)
      → all_fields ≡ take i all_fields ++ ((4, put_u32 v) ∷ drop (suc i) all_fields)
      → total (take i all_fields) ≡ offset
      → v < 2 ^ 32
      → get_u32 (drop offset (packet tag fields trail)) ≡ v
  word-packet i offset v split at h =
      sym (get_u32-take (drop offset (packet tag fields trail)))
      ∙ ap get_u32 (slice-packet i offset 4 (put_u32 v) split at (length-put_u32 v))
      ∙ ap get_u32 (sym (append-nil (put_u32 v)))
      ∙ get_u32-put_u32 v [] h

  -- A byte in a packet.
  pub byte-packet :
      (i offset b : ℕ)
      → all_fields ≡ take i all_fields ++ ((1, b ∷ []) ∷ drop (suc i) all_fields)
      → total (take i all_fields) ≡ offset
      → byte_at (packet tag fields trail) offset ≡ b
  byte-packet i offset b split at =
      sym (get_or-slice offset (packet tag fields trail))
      ∙ ap (λ t. byte_at t 0) (slice-packet i offset 1 (b ∷ []) split at refl)

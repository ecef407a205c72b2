-- ===== src/Ledger/Authentic.antt =====
-- GcsLedgerClient.cpp: where a fetched path and a fetched root come from.
use post_quantum_uav_uav.Prelude.{
  ℕ, ◌+◌, ◌-◌, ◌≤◌, ◌<◌, ◌≡◌, refl, sym, ap, ◌∙◌, true, some, none, Option, List, ◌++◌, All, length,
  take, drop, slice, slice-append, take-append-drop, take-append_le, drop-append_le, take-append,
  length-drop, take-all, All-drop, arith, get_or-append_lt,
}
use post_quantum_uav_uav.Codec.{IsByte, byte_at, get_u32, get_u64, constant_time_equal}
use post_quantum_uav_uav.Codec.Integers.{get_u32-take, get_u64-take}
use post_quantum_uav_uav.Codec.Compare.{constant_time_equal_iff, constant_time_equal-take}
use post_quantum_uav_uav.Crypto.{WolfCrypt, IsDocumented, ok, hmac, hmac_sha256}
use post_quantum_uav_uav.Crypto.Sha.{hmac_sha256-hmac, hmac-IsDigest, succeeded-eq-some}
use post_quantum_uav_uav.Transport.Fragment.{Arrival}
use post_quantum_uav_uav.Ledger.Wire.{gcs_ledger_hmac_key, compute_tag}
use post_quantum_uav_uav.Ledger.Client.{Client, Awaited, is_authentic, equals_tag}
use post_quantum_uav_uav.Ledger.Heard.{IsClient, Heard}

-- The last 32 bytes are the HMAC of the others.
abbrev pub IsSealed : WolfCrypt → List ℕ → Type 0
IsSealed w packet =
    hmac w gcs_ledger_hmac_key (take (length packet - 32) packet)
    ≡ ok (drop (length packet - 32) packet)

compute_tag-hmac :
    (w : WolfCrypt) (buffer tag : List ℕ) (n : ℕ)
    → n ≤ length buffer
    → compute_tag w buffer n ≡ some tag
    → hmac w gcs_ledger_hmac_key (take n buffer) ≡ ok tag
unfolding compute_tag
compute_tag-hmac w buffer tag n h e =
    sym (hmac_sha256-hmac w gcs_ledger_hmac_key buffer n h) ∙ succeeded-eq-some _ e

equals_tag-true :
    (received : List ℕ) (expected : Option (List ℕ))
    → equals_tag received expected ≡ true
    → (tag : List ℕ) × (expected ≡ some tag) × (constant_time_equal received tag 32 ≡ true)
equals_tag-true received none h = absurd (cc)
equals_tag-true received (some tag) h = (tag, refl, h)

-- A buffer that starts with the bytes of a packet.
starts_with :
    (buffer bytes : List ℕ) (n : ℕ) → take n buffer ≡ bytes → buffer ≡ bytes ++ drop n buffer
starts_with buffer bytes n held =
    sym (take-append-drop n buffer) ∙ ap (λ t. t ++ drop n buffer) held

module _ (buffer bytes : List ℕ) (n : ℕ) (held : take n buffer ≡ bytes) (count : length bytes ≡ n)
    (lower : 32 ≤ n) (upper : n ≤ length buffer) where
  body_same : take (n - 32) buffer ≡ take (n - 32) bytes
  body_same =
      ap (take (n - 32)) (starts_with buffer bytes n held)
      ∙ take-append_le (n - 32) bytes (drop n buffer) (omega arith)

  tag_size : length (drop (n - 32) bytes) ≡ 32
  tag_size = omega (arith, length-drop (n - 32) bytes)

  tag_same : take 32 (drop (n - 32) buffer) ≡ drop (n - 32) bytes
  tag_same =
      ap (λ t. take 32 (drop (n - 32) t)) (starts_with buffer bytes n held)
      ∙ ap (take 32) (drop-append_le (n - 32) bytes (drop n buffer) (omega arith))
      ∙ take-append 32 (drop (n - 32) bytes) (drop n buffer) tag_size

  module _ (w : WolfCrypt) where
    pub is_authentic→IsSealed :
        IsDocumented w → All IsByte buffer → is_authentic w buffer n ≡ true → IsSealed w bytes
    unfolding is_authentic
    is_authentic→IsSealed documented all_bytes authentic =
        let m = n - 32 in
        let (tag, computed, same) =
          equals_tag-true (drop m buffer) (compute_tag w buffer m) authentic in
        let sealed = compute_tag-hmac w buffer tag m (omega arith) computed in
        let digest = hmac-IsDigest w documented gcs_ledger_hmac_key (take m buffer) tag sealed in
        let agree : take 32 (drop m buffer) ≡ take 32 tag =
          (constant_time_equal_iff (drop m buffer) tag 32 (omega (arith, length-drop m buffer))
              (omega (arith, digest.0)) (All-drop IsByte m buffer all_bytes) digest.1).0
            same in
        let found : drop m bytes ≡ tag =
          sym tag_same ∙ agree ∙ take-all 32 tag (omega (arith, digest.0)) in
        rw count (ap (hmac w gcs_ledger_hmac_key) (sym body_same) ∙ sealed ∙ ap ok (sym found))

    pub IsSealed→is_authentic : IsSealed w bytes → is_authentic w buffer n ≡ true
    unfolding is_authentic compute_tag
    IsSealed→is_authentic sealed =
        let m = n - 32 in
        let computed : hmac_sha256 w (some gcs_ledger_hmac_key) 32 (some buffer) m
            ≡ ok (drop m bytes) =
          hmac_sha256-hmac w gcs_ledger_hmac_key buffer m (omega arith)
          ∙ ap (hmac w gcs_ledger_hmac_key) body_same
          ∙ (rw (← count) sealed) in
        rw computed (
          constant_time_equal-take (drop m buffer) (drop m bytes) 32
            (omega (arith, length-drop m buffer)) (omega (arith, tag_size))
            (tag_same ∙ sym (take-all 32 (drop m bytes) (omega (arith, tag_size)))))

module _ (w : WolfCrypt) (documented : IsDocumented w) (e : Awaited) (c : Client)
    (sound : IsClient c) (arrivals : List Arrival) (n : ℕ) (heard : Heard w e c arrivals n) where
  buffer-parts : c.buffer ≡ heard.bytes ++ drop n c.buffer
  buffer-parts = starts_with c.buffer heard.bytes n heard.held

  -- The datagram that is taken for a response carries the HMAC of its bytes.
  pub heard-IsSealed : IsSealed w heard.bytes
  heard-IsSealed =
      is_authentic→IsSealed c.buffer heard.bytes n heard.held heard.count
        (omega (arith, heard.lower)) (omega (arith, heard.upper, sound.size)) w documented
        sound.bytes heard.authentic

  -- Fields of the response are fields of the datagram.
  pub heard-slice :
      (offset k : ℕ) → offset + k ≤ n → slice offset k c.buffer ≡ slice offset k heard.bytes
  heard-slice offset k h =
      ap (slice offset k) buffer-parts
      ∙ slice-append offset k heard.bytes (drop n c.buffer) (omega (arith, heard.count))

  pub heard-get_u32 :
      (offset : ℕ)
      → offset + 4 ≤ n
      → get_u32 (drop offset c.buffer) ≡ get_u32 (drop offset heard.bytes)
  heard-get_u32 offset h =
      sym (get_u32-take (drop offset c.buffer))
      ∙ ap get_u32 (heard-slice offset 4 h)
      ∙ get_u32-take (drop offset heard.bytes)

  pub heard-byte_at : (i : ℕ) → i < n → byte_at c.buffer i ≡ byte_at heard.bytes i
  heard-byte_at i h =
      ap (λ t. byte_at t i) buffer-parts
      ∙ get_or-append_lt heard.bytes (drop n c.buffer) i 0 (omega (arith, heard.count))

  pub heard-get_u64 :
      (offset : ℕ)
      → offset + 8 ≤ n
      → get_u64 (drop offset c.buffer) ≡ get_u64 (drop offset heard.bytes)
  heard-get_u64 offset h =
      sym (get_u64-take (drop offset c.buffer))
      ∙ ap get_u64 (heard-slice offset 8 h)
      ∙ get_u64-take (drop offset heard.bytes)

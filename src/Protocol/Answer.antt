-- ===== src/Protocol/Answer.antt =====
-- ProposedUavProtocol.cpp: what the initiator reads from M3.
use post_quantum_uav_uav.Prelude.{
  ℕ, ◌+◌, ◌^◌, ◌<◌, ◌≡◌, refl, ap, ◌∙◌, true, some, List, [], ◌∷◌, ◌++◌, length, arith, slice, drop,
  joined, joined-drop, joined-slice, length-joined, write_fields, write_fields-zeros, replicate,
  Sized,
}
use post_quantum_uav_uav.Codec.{put_u16, get_u16}
use post_quantum_uav_uav.Codec.Integers.{get_u16-put_u16, length-put_u16}
use post_quantum_uav_uav.Crypto.{WolfCrypt, IsDocumented}
use post_quantum_uav_uav.Crypto.Sha.{hmac_sha256-IsDigest, succeeded-eq-some}
use post_quantum_uav_uav.Protocol.Config.{
  PathDeliveryMode, signer_carried, repository_assisted, m3_bytes_for_mode, m3_inner_bytes_for_mode,
}
use post_quantum_uav_uav.Protocol.Transcript.{compute_confirmation_tag, tagged}
use post_quantum_uav_uav.Protocol.Session.{m3_inner_fields, m3_fields, signed_fields, is_headed}
use post_quantum_uav_uav.Protocol.Read.{IsMessage, message, message-Sized, headed}

pub compute_confirmation_tag-size :
    (w : WolfCrypt) (documented : IsDocumented w) (domain : ℕ) (key hash tau : List ℕ)
    → compute_confirmation_tag w domain key hash ≡ some tau
    → length tau ≡ 32
unfolding compute_confirmation_tag
compute_confirmation_tag-size w documented domain key hash tau e =
    (hmac_sha256-IsDigest w documented (some key) 32 (some (tagged domain hash)) 36 tau
      (succeeded-eq-some _ e)).0

pub inner-joined :
    (mode : PathDeliveryMode) (sid : List ℕ) (version q : ℕ) (text signature path : List ℕ)
    → IsMessage 0x14 768 mode sid version q text signature path
    → write_fields 0
        (m3_inner_fields mode sid version q text signature path)
        (replicate (m3_inner_bytes_for_mode mode) 0)
      ≡ message 0x14 768 mode sid version q text signature path
inner-joined signer_carried sid version q text signature path m =
    write_fields-zeros (signed_fields 0x14 768 signer_carried sid version q text signature path)
      3310 (message-Sized 0x14 768 signer_carried sid version q text signature path m) refl
inner-joined repository_assisted sid version q text signature path m =
    write_fields-zeros
      (signed_fields 0x14 768 repository_assisted sid version q text signature path) 2990
      (message-Sized 0x14 768 repository_assisted sid version q text signature path m) refl

pub inner-size :
    (mode : PathDeliveryMode) (sid : List ℕ) (version q : ℕ) (text signature path : List ℕ)
    → IsMessage 0x14 768 mode sid version q text signature path
    → length (message 0x14 768 mode sid version q text signature path)
      ≡ m3_inner_bytes_for_mode mode
inner-size signer_carried sid version q text signature path m =
    length-joined (signed_fields 0x14 768 signer_carried sid version q text signature path)
      (message-Sized 0x14 768 signer_carried sid version q text signature path m)
inner-size repository_assisted sid version q text signature path m =
    length-joined (signed_fields 0x14 768 repository_assisted sid version q text signature path)
      (message-Sized 0x14 768 repository_assisted sid version q text signature path m)

module _ (mode : PathDeliveryMode) (sid inner tau : List ℕ) (hs : length sid ≡ 32)
    (hi : length inner ≡ m3_inner_bytes_for_mode mode) (ht : length tau ≡ 32) where
  abbrev pub m3 : List ℕ
  m3 = joined (m3_fields mode sid inner tau)

  m3-Sized : Sized (m3_fields mode sid inner tau)
  m3-Sized = (refl, (refl, (hs, (length-put_u16 (m3_inner_bytes_for_mode mode), (hi, (ht, tt))))))

  pub m3_head : is_headed 0x13 sid m3 ≡ true
  m3_head =
      headed 0x13 sid
        (joined (
          (2, put_u16 (m3_inner_bytes_for_mode mode))
          ∷ (m3_inner_bytes_for_mode mode, inner)
          ∷ (32, tau)
          ∷ []))
        hs

  fits_u16 : (mode : PathDeliveryMode) → m3_inner_bytes_for_mode mode < 2 ^ 16
  fits_u16 signer_carried = omega arith
  fits_u16 repository_assisted = omega arith

  pub m3_length : get_u16 (drop 34 m3) ≡ m3_inner_bytes_for_mode mode
  m3_length =
      ap get_u16 (
        joined-drop ((1, 1 ∷ []) ∷ (1, 0x13 ∷ []) ∷ (32, sid) ∷ [])
          ((2, put_u16 (m3_inner_bytes_for_mode mode))
            ∷ (m3_inner_bytes_for_mode mode, inner)
            ∷ (32, tau)
            ∷ [])
          (refl, (refl, (hs, tt))))
      ∙ get_u16-put_u16 (m3_inner_bytes_for_mode mode) (inner ++ tau) (fits_u16 mode)

  pub m3_inner : slice 36 (m3_inner_bytes_for_mode mode) m3 ≡ inner
  m3_inner =
      joined-slice
        ((1, 1 ∷ [])
          ∷ (1, 0x13 ∷ [])
          ∷ (32, sid)
          ∷ (2, put_u16 (m3_inner_bytes_for_mode mode))
          ∷ [])
        ((32, tau) ∷ []) (m3_inner_bytes_for_mode mode) inner
        (refl, (refl, (hs, (length-put_u16 (m3_inner_bytes_for_mode mode), tt)))) hi

  pub m3_tau : slice (36 + m3_inner_bytes_for_mode mode) 32 m3 ≡ tau
  m3_tau =
      ap (λ (o : ℕ). slice o 32 m3) (omega arith)
      ∙ joined-slice
          ((1, 1 ∷ [])
            ∷ (1, 0x13 ∷ [])
            ∷ (32, sid)
            ∷ (2, put_u16 (m3_inner_bytes_for_mode mode))
            ∷ (m3_inner_bytes_for_mode mode, inner)
            ∷ [])
          [] 32 tau (refl, (refl, (hs, (length-put_u16 (m3_inner_bytes_for_mode mode), (hi, tt)))))
          ht

pub m3-joined :
    (mode : PathDeliveryMode) (sid inner tau : List ℕ)
    → length sid ≡ 32
    → length inner ≡ m3_inner_bytes_for_mode mode
    → length tau ≡ 32
    → write_fields 0 (m3_fields mode sid inner tau) (replicate (m3_bytes_for_mode mode) 0)
      ≡ joined (m3_fields mode sid inner tau)
m3-joined signer_carried sid inner tau hs hi ht =
    write_fields-zeros (m3_fields signer_carried sid inner tau) 3378
      (m3-Sized signer_carried sid inner tau hs hi ht) refl
m3-joined repository_assisted sid inner tau hs hi ht =
    write_fields-zeros (m3_fields repository_assisted sid inner tau) 3058
      (m3-Sized repository_assisted sid inner tau hs hi ht) refl

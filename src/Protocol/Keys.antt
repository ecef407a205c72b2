-- ===== src/Protocol/Keys.antt =====
-- ProposedUavProtocol.cpp: `deriveSessionKeys` against RFC 5869.
use post_quantum_uav_uav.Prelude.{
  ℕ, ◌≡◌, sym, ap, ◌∙◌, some, List, length, take, slice, arith, length-append, length-take, ◌>>=◌,
}
use post_quantum_uav_uav.Codec.{put_u16}
use post_quantum_uav_uav.Codec.Integers.{length-put_u16}
use post_quantum_uav_uav.Crypto.{WolfCrypt, IsDocumented, succeeded, hkdf_sha256}
use post_quantum_uav_uav.Crypto.Hkdf.{rfc5869, hkdf_sha256-rfc5869}
use post_quantum_uav_uav.Protocol.Transcript.{derive_session_keys, tagged, domain_uav_ake}

length-tagged : (domain : ℕ) (hash : List ℕ) → length hash ≡ 32 → length (tagged domain hash) ≡ 36
length-tagged domain hash h =
    omega (arith, length-append (put_u16 32) (take 32 hash), length-put_u16 32, length-take 32 hash)

-- Where wolfSSL's HMACs have 32 bytes, `deriveSessionKeys` of a secret and a transcript hash of 32 bytes
-- takes the session key and the confirmation keys of A and of B, in this order, from the 96 bytes of
-- HKDF of RFC 5869 for the secret, with the transcript hash as salt and in the info string, and fails
-- exactly where that does.
pub derive_session_keys-rfc5869 :
    (w : WolfCrypt) (shared_secret transcript_hash : List ℕ)
    → IsDocumented w
    → length shared_secret ≡ 32
    → length transcript_hash ≡ 32
    → derive_session_keys w shared_secret transcript_hash ≡ (
        succeeded
          (rfc5869 w shared_secret transcript_hash (tagged domain_uav_ake transcript_hash) 96)
        >>= λ okm. some (slice 0 32 okm, slice 32 32 okm, slice 64 32 okm))
unfolding derive_session_keys
derive_session_keys-rfc5869 w shared_secret transcript_hash documented hs ht =
    let info = tagged domain_uav_ake transcript_hash in
    let size = length-tagged domain_uav_ake transcript_hash ht in
    ap (λ r. succeeded r >>= λ okm. some (slice 0 32 okm, slice 32 32 okm, slice 64 32 okm))
      (sym (λ k.
          hkdf_sha256 w (some shared_secret) (hs k) (some transcript_hash) (ht k) (some info)
            (size k) 96)
        ∙ hkdf_sha256-rfc5869 w documented shared_secret transcript_hash info 96 (omega arith)
            (omega arith) (omega arith) (omega arith) (omega arith))

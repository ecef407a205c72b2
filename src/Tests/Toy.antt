-- ===== src/Tests/Toy.antt =====
-- A wolfSSL for the tests: digests that depend on the sum and the number of the bytes, and never fail.
use post_quantum_uav_uav.Prelude.{
  ℕ, ◌+◌, ◌%◌, refl, List, [], ◌∷◌, ◌++◌, All-replicate, length, length-replicate, replicate, arith,
}
use post_quantum_uav_uav.Prelude.Int.{pos}
use post_quantum_uav_uav.Codec.{IsByte}
use post_quantum_uav_uav.Crypto.{WolfCrypt, IsDocumented}
use post_quantum_uav_uav.Crypto.Sha.{IsReliable, IsReliableHmac, IsDigest}

sum : List ℕ → ℕ
sum [] = 0
sum (b ∷ bytes) = b + sum bytes

pub digest : List ℕ → List ℕ
digest bytes = (sum bytes % 256) ∷ (length bytes % 256) ∷ replicate 30 7

pub digest-IsDigest : (bytes : List ℕ) → IsDigest (digest bytes)
unfolding digest
digest-IsDigest bytes = (
  omega (arith, length-replicate {A = ℕ} 30 7),
  (omega arith, (omega arith, All-replicate IsByte 30 7 (omega arith))),
)

abbrev pub toy : WolfCrypt
toy = record {
  Sha256 = List ℕ;
  init_sha256 = (pos 0, []);
  sha256_update = λ s bytes. (pos 0, s ++ bytes);
  sha256_final = λ s. (pos 0, digest s);
  Hmac = List ℕ;
  hmac_set_key = λ key. (pos 0, key);
  hmac_update = λ h bytes. (pos 0, h ++ bytes);
  hmac_final = λ h. (pos 0, digest h);
}

pub toy-IsDocumented : IsDocumented toy
toy-IsDocumented = record {
  sha256_bytes = λ s e. digest-IsDigest s;
  hmac_bytes = λ h e. digest-IsDigest h;
}

pub toy-IsReliable : IsReliable toy
toy-IsReliable = record {
  sha256_init = refl;
  sha256_update = λ s bytes. refl;
  sha256_final = λ s. refl;
}

pub toy-IsReliableHmac : IsReliableHmac toy
toy-IsReliableHmac = record { set_key = λ key. refl; update = λ h bytes. refl; final = λ h. refl }

-- ===== src/Crypto/Sha.antt =====
-- What the digests of CryptoHelpers.cpp look like, from what wolfSSL documents.
use post_quantum_uav_uav.Prelude.{
  ℕ, ◌≤◌, ◌≡◌, Bool, take, take-all, length-take, arith, ◌<◌, ltb-false, refl, subst, true, false,
  some, List, suc, [], ◌∷◌, length, All, Bool-cases, inl, inr, ◌&&◌, ◌||◌, not, ◌==◌, ltb,
}
use post_quantum_uav_uav.Prelude.Int.{ℤ, is_zero}
use post_quantum_uav_uav.Codec.{IsByte}
use post_quantum_uav_uav.Crypto.{
  WolfCrypt, IsDocumented, Result, ok, err, sha256, sha256_calls, hash, hmac, hmac_calls,
  hmac_sha256, succeeded, Pointer, finish, is_null,
}

abbrev pub IsDigest : List ℕ → Type 0
IsDigest bytes = (length bytes ≡ 32) × All IsByte bytes

finish-IsDigest :
    {S : Type 0} (final : S → ℤ × List ℕ) (u : ℤ × S) (digest : List ℕ)
    → ((s : S) → is_zero (final s).0 ≡ true → IsDigest (final s).1)
    → finish final u ≡ ok digest
    → IsDigest digest
unfolding finish
finish-IsDigest final (ret, s) digest h e = elim (Bool-cases (is_zero ret)) [
  | inr failed ↦ cc (rw (failed, failed) at e)
  | inl fine ↦ elim (Bool-cases (is_zero (final s).0)) [
    | inr failed ↦ cc (rw (fine, failed) at e)
    | inl final_fine ↦
        let same : (final s).1 ≡ digest = cc (rw (fine, final_fine) at e) in
        subst IsDigest same (h s final_fine)
  ]
]

pub succeeded-eq-some :
    (r : Result (List ℕ)) {digest : List ℕ} → succeeded r ≡ some digest → r ≡ ok digest
succeeded-eq-some (ok a) e = cc
succeeded-eq-some (err c) e = cc

module _ (w : WolfCrypt) (documented : IsDocumented w) where
  pub sha256-IsDigest :
      (bytes : Pointer) (n : ℕ) (digest : List ℕ) → sha256 w bytes n ≡ ok digest → IsDigest digest
  unfolding sha256
  sha256-IsDigest bytes n digest e =
      elim (Bool-cases ((is_null bytes && not (n == 0)) || ltb 4294967295 n)) [
        | inl refused ↦ cc (rw refused at e)
        | inr called ↦ finish-IsDigest _ _ digest documented.sha256_bytes (rw called at e)
      ]

  pub hash-IsDigest : (bytes digest : List ℕ) → hash w bytes ≡ some digest → IsDigest digest
  unfolding hash
  hash-IsDigest bytes digest e =
      sha256-IsDigest (some bytes) (length bytes) digest (succeeded-eq-some _ e)

  pub hmac-IsDigest : (key bytes digest : List ℕ) → hmac w key bytes ≡ ok digest → IsDigest digest
  unfolding hmac hmac_sha256
  hmac-IsDigest key bytes digest e =
      elim (Bool-cases (ltb 4294967295 (length key) || ltb 4294967295 (length bytes))) [
        | inl refused ↦ cc (rw refused at e)
        | inr called ↦ finish-IsDigest _ _ digest documented.hmac_bytes (rw called at e)
      ]

-- wolfSSL reports no error.
pub record IsReliable (w : WolfCrypt) : Type 0 where
  pub sha256_init : is_zero w.init_sha256.0 ≡ true
  pub sha256_update : (s : w.Sha256) (bytes : List ℕ) → is_zero (w.sha256_update s bytes).0 ≡ true
  pub sha256_final : (s : w.Sha256) → is_zero (w.sha256_final s).0 ≡ true

pub finish-reliable :
    {S : Type 0} (final : S → ℤ × List ℕ) (u : ℤ × S)
    → ((s : S) → is_zero (final s).0 ≡ true)
    → is_zero u.0 ≡ true
    → finish final u ≡ ok (final u.1).1
unfolding finish
finish-reliable final (ret, s) h e = rw (e, h s)

pub sha256_calls_total :
    (w : WolfCrypt)
    → IsReliable w
    → (bytes : List ℕ) (empty : Bool) → (d : List ℕ) × (sha256_calls w bytes empty ≡ ok d)
unfolding sha256_calls
sha256_calls_total w reliable bytes true = (
  (w.sha256_final w.init_sha256.1).1,
  rw reliable.sha256_init
      (finish-reliable w.sha256_final w.init_sha256 reliable.sha256_final reliable.sha256_init),
)
sha256_calls_total w reliable bytes false = (
  (w.sha256_final (w.sha256_update w.init_sha256.1 bytes).1).1,
  rw reliable.sha256_init (
      finish-reliable w.sha256_final (w.sha256_update w.init_sha256.1 bytes) reliable.sha256_final
        (reliable.sha256_update w.init_sha256.1 bytes)),
)

-- Then every array of at most 2 ^ 32 - 1 bytes is hashed.
pub hash_total :
    (w : WolfCrypt)
    → IsReliable w
    → (bytes : List ℕ) → length bytes ≤ 4294967295
    → (d : List ℕ) × (hash w bytes ≡ some d)
unfolding hash sha256
hash_total w reliable bytes h =
    let (d, e) = sha256_calls_total w reliable (take (length bytes) bytes) (length bytes == 0) in
    (d, rw (ltb-false 4294967295 (length bytes) h, e) refl)

-- The hash of an array that is not empty is what one update by it gives.
pub hash-update :
    (w : WolfCrypt) (reliable : IsReliable w) (bytes : List ℕ)
    → 0 < length bytes
    → length bytes ≤ 4294967295
    → hash w bytes ≡ succeeded (finish w.sha256_final (w.sha256_update w.init_sha256.1 bytes))
unfolding hash sha256 sha256_calls
hash-update w reliable bytes hp hm =
    rw
      (
        positive,
        ltb-false 4294967295 (length bytes) hm,
        reliable.sha256_init,
        take-all (length bytes) bytes (omega arith),
      )
      refl
  where
    positive : (length bytes == 0) ≡ false
    positive = ground arith

pub hmac_sha256-IsDigest :
    (w : WolfCrypt) (documented : IsDocumented w) (key : Pointer) (n : ℕ) (bytes : Pointer) (m : ℕ)
    (digest : List ℕ)
    → hmac_sha256 w key n bytes m ≡ ok digest
    → IsDigest digest
unfolding hmac_sha256
hmac_sha256-IsDigest w documented key n bytes m digest e =
    elim (Bool-cases (
      (is_null key && not (n == 0))
      || (is_null bytes && not (m == 0))
      || ltb 4294967295 n
      || ltb 4294967295 m)) [
        | inl refused ↦ cc (rw refused at e)
        | inr called ↦ finish-IsDigest _ _ digest documented.hmac_bytes (rw called at e)
      ]

-- The HMAC of the first bytes of an array.
pub hmac_sha256-hmac :
    (w : WolfCrypt) (key bytes : List ℕ) (n : ℕ)
    → n ≤ length bytes
    → hmac_sha256 w (some key) (length key) (some bytes) n ≡ hmac w key (take n bytes)
unfolding hmac hmac_sha256
hmac_sha256-hmac w key bytes n h = rw (size, take-all n (take n bytes) (omega (arith, size))) refl
  where
    size : length (take n bytes) ≡ n
    size = omega (arith, length-take n bytes)

-- wolfSSL reports no error in the calls of an HMAC.
pub record IsReliableHmac (w : WolfCrypt) : Type 0 where
  pub set_key : (key : List ℕ) → is_zero (w.hmac_set_key key).0 ≡ true
  pub update : (h : w.Hmac) (bytes : List ℕ) → is_zero (w.hmac_update h bytes).0 ≡ true
  pub final : (h : w.Hmac) → is_zero (w.hmac_final h).0 ≡ true

-- What the calls give then.
abbrev pub hmac_value : (w : WolfCrypt) → List ℕ → List ℕ → List ℕ
hmac_value w key [] = (w.hmac_final (w.hmac_set_key key).1).1
hmac_value w key (b ∷ bytes) = (w.hmac_final (w.hmac_update (w.hmac_set_key key).1 (b ∷ bytes)).1).1

hmac_calls_total :
    (w : WolfCrypt) (reliable : IsReliableHmac w) (key bytes : List ℕ)
    → hmac_calls w key bytes (length bytes == 0) ≡ ok (hmac_value w key bytes)
unfolding hmac_calls
hmac_calls_total w reliable key [] =
    rw (reliable.set_key key)
      (finish-reliable w.hmac_final (w.hmac_set_key key) reliable.final (reliable.set_key key))
hmac_calls_total w reliable key (b ∷ bytes) =
    rw (positive, reliable.set_key key)
      (finish-reliable w.hmac_final (w.hmac_update (w.hmac_set_key key).1 (b ∷ bytes))
        reliable.final (reliable.update (w.hmac_set_key key).1 (b ∷ bytes)))
  where
    positive : (suc (length bytes) == 0) ≡ false
    positive = ground arith

pub hmac_total :
    (w : WolfCrypt) (reliable : IsReliableHmac w) (key bytes : List ℕ)
    → length key ≤ 4294967295
    → length bytes ≤ 4294967295
    → hmac w key bytes ≡ ok (hmac_value w key bytes)
unfolding hmac hmac_sha256
hmac_total w reliable key bytes hk hb =
    rw
      (
        ltb-false 4294967295 (length key) hk,
        ltb-false 4294967295 (length bytes) hb,
        take-all (length key) key (omega arith),
        take-all (length bytes) bytes (omega arith),
      )
      (hmac_calls_total w reliable key bytes)

-- ===== src/Crypto.antt =====
-- ESP32_Proposed_Protocol_Complete_v4/Arduino/libraries/ProposedUavProtocol/library/src/
-- CryptoHelpers.cpp over wolfSSL, which is a parameter. A `Result` is the helper's return value: `ok`
-- with what it stored through `output`, or `err` with the code that it left in `s_lastError`.
-- Output pointers are never null; an input pointer is a `Pointer`, and `none` is the null pointer.
pub mod Sha
pub mod Hkdf
pub mod Total
use post_quantum_uav_uav.Prelude.{
  ℕ, zero, suc, ◌+◌, ◌-◌, ◌*◌, ◌%◌, ◌<◌, ◌≡◌, Bool, true, false, not, ◌&&◌, ◌||◌, Option, none,
  some, List, [], ◌∷◌, ◌++◌, ltb, ◌==◌, if◌then◌else◌, length, take, replicate, All,
}
use post_quantum_uav_uav.Prelude.Int.{ℤ, pos, negsuc, is_zero}
use post_quantum_uav_uav.Codec.{IsByte, put_u32}

-- The calls of wolfSSL that the helpers make; each returns its code and the object that it changed.
pub record WolfCrypt : Type 1 where
  pub Sha256 : Type 0
  pub init_sha256 : ℤ × Sha256
  pub sha256_update : Sha256 → List ℕ → ℤ × Sha256
  pub sha256_final : Sha256 → ℤ × List ℕ
  pub Hmac : Type 0
  pub hmac_set_key : List ℕ → ℤ × Hmac
  pub hmac_update : Hmac → List ℕ → ℤ × Hmac
  pub hmac_final : Hmac → ℤ × List ℕ

-- `while (length-- != 0) *cursor++ = 0`
pub secure_zero : ℕ → List ℕ → List ℕ
secure_zero zero memory = memory
secure_zero (suc length) [] = []
secure_zero (suc length) (b ∷ memory) = 0 ∷ secure_zero length memory

-- What wolfSSL documents of a digest: 32 bytes.
pub record IsDocumented (w : WolfCrypt) : Type 0 where
  pub sha256_bytes :
      (s : w.Sha256)
      → is_zero (w.sha256_final s).0 ≡ true
      → (length (w.sha256_final s).1 ≡ 32) × All IsByte (w.sha256_final s).1
  pub hmac_bytes :
      (h : w.Hmac)
      → is_zero (w.hmac_final h).0 ≡ true
      → (length (w.hmac_final h).1 ≡ 32) × All IsByte (w.hmac_final h).1

pub data Result {ℓ} (A : Type ℓ) : Type ℓ where
  ok : A → Result A
  err : ℤ → Result A

infixl 5 ◌>>=◌
abbrev pub ◌>>=◌ {ℓ κ} : {A : Type ℓ} {B : Type κ} → Result A → (A → Result B) → Result B
ok a >>= f = f a
err e >>= f = err e

-- The bool that a caller reads, with the output where it is true.
abbrev pub succeeded {ℓ} : {A : Type ℓ} → Result A → Option A
succeeded (ok a) = some a
succeeded (err e) = none

abbrev pub Pointer : Type 0
Pointer = Option (List ℕ)

abbrev pub is_null : Pointer → Bool
is_null none = true
is_null (some bytes) = false

-- The `length` bytes behind a pointer.
abbrev bytes_of : Pointer → ℕ → List ℕ
bytes_of none length = []
bytes_of (some bytes) length = take length bytes

abbrev pub uint32_max : ℕ
uint32_max = 4294967295

abbrev hash_bytes : ℕ
hash_bytes = 32

-- "LMS-SEED"
abbrev pub lms_seed_label : List ℕ
lms_seed_label = b'L' ∷ b'M' ∷ b'S' ∷ b'-' ∷ b'S' ∷ b'E' ∷ b'E' ∷ b'D' ∷ []

-- `if (ret == 0) ret = final(...)`, and the output where every code was 0.
pub finish : {S : Type 0} → (S → ℤ × List ℕ) → ℤ × S → Result (List ℕ)
finish final (ret, state) =
    let output : ℤ × List ℕ = if is_zero ret then final state else (ret, []) in
    if is_zero output.0 then ok output.1 else err output.0

module _ (w : WolfCrypt) where
  -- `ret = init(...); if (ret == 0 && length != 0) ret = update(...)`, and so on.
  pub sha256_calls : List ℕ → Bool → Result (List ℕ)
  sha256_calls bytes empty =
      let (ret, sha) = w.init_sha256 in
      finish w.sha256_final
        (if is_zero ret && not empty then w.sha256_update sha bytes else (ret, sha))

  pub sha256 : Pointer → ℕ → Result (List ℕ)
  unfolding sha256_calls
  sha256 bytes length =
      if (is_null bytes && not (length == 0)) || ltb uint32_max length
      then err (negsuc 0)
      else sha256_calls (bytes_of bytes length) (length == 0)

  -- The call that hashes a whole array.
  pub hash : List ℕ → Option (List ℕ)
  hash bytes = succeeded (sha256 (some bytes) (length bytes))

  pub hmac_calls : List ℕ → List ℕ → Bool → Result (List ℕ)
  hmac_calls key bytes empty =
      let (ret, hmac) = w.hmac_set_key key in
      finish w.hmac_final
        (if is_zero ret && not empty then w.hmac_update hmac bytes else (ret, hmac))

  pub hmac_sha256 : Pointer → ℕ → Pointer → ℕ → Result (List ℕ)
  unfolding hmac_calls
  hmac_sha256 key key_length bytes data_length =
      if (is_null key && not (key_length == 0))
        || (is_null bytes && not (data_length == 0))
        || ltb uint32_max key_length
        || ltb uint32_max data_length
      then err (negsuc 1)
      else hmac_calls (bytes_of key key_length) (bytes_of bytes data_length) (data_length == 0)

  -- The call with whole arrays.
  pub hmac : List ℕ → List ℕ → Result (List ℕ)
  hmac key bytes = hmac_sha256 (some key) (length key) (some bytes) (length bytes)

  -- `while (outputOffset < outputLength)`; `output` holds `outputOffset` bytes. A round copies at
  -- least one byte, so `outputLength` rounds are enough.
  pub hkdf_expand : ℕ → List ℕ → List ℕ → List ℕ → ℕ → List ℕ → ℕ → Result (List ℕ)
  hkdf_expand zero prk info previous counter output output_length = ok output
  hkdf_expand (suc rounds) prk info previous counter output output_length =
      let round : Result (List ℕ) = (do
        block ← hmac prk (previous ++ (info ++ (counter ∷ [])))
        let remaining = output_length - length output
        let copy_length = if ltb remaining hash_bytes then remaining else hash_bytes
        hkdf_expand rounds prk info block ((counter + 1) % 256) (output ++ take copy_length block)
            output_length) in
      if ltb (length output) output_length then round else ok output

  pub hkdf_sha256 : Pointer → ℕ → Pointer → ℕ → Pointer → ℕ → ℕ → Result (List ℕ)
  hkdf_sha256 ikm ikm_length salt salt_length info info_length output_length =
      if (is_null ikm && not (ikm_length == 0))
        || (is_null salt && not (salt_length == 0))
        || (is_null info && not (info_length == 0))
        || ltb uint32_max ikm_length
        || ltb uint32_max salt_length
        || ltb uint32_max info_length
        || (output_length == 0)
        || ltb (255 * hash_bytes) output_length
      then err (negsuc 2)
      else do
        let zero_salt = replicate {A = ℕ} hash_bytes 0
        let effective_salt = if salt_length == 0 then some zero_salt else salt
        let effective_salt_length = if salt_length == 0 then hash_bytes else salt_length
        prk ← hmac_sha256 effective_salt effective_salt_length ikm ikm_length
        if ltb 128 info_length
            then err (negsuc 3)
            else hkdf_expand output_length prk (bytes_of info info_length) [] 1 [] output_length

  pub derive_lms_seed : Pointer → Pointer → ℕ → Pointer → Result (List ℕ)
  derive_lms_seed puf_root device_id credential_version identifier =
      if is_null puf_root || is_null device_id || is_null identifier
      then err (negsuc 4)
      else (let info =
            lms_seed_label
            ++ (bytes_of device_id 32 ++ (put_u32 credential_version ++ bytes_of identifier 16)) in
          hkdf_sha256 puf_root hash_bytes none 0 (some info) (length info) hash_bytes)

  unfoldable pub helper_data_digest : Pointer → Result (List ℕ)
  helper_data_digest helper_data = sha256 helper_data 32

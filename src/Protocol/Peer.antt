-- ===== src/Protocol/Peer.antt =====
-- What a session asks of the rest of the node: the peer's record, its path, the runtime seed, and
-- ML-KEM, which is a parameter as the repository and the PUF are.
use post_quantum_uav_uav.Prelude.{
  ℕ, Bool, true, false, not, ◌||◌, Option, none, some, List, ltb, ◌==◌, if◌then◌else◌, take, ◌>>=◌,
}
use post_quantum_uav_uav.Prelude.Int.{ℤ, is_zero}
use post_quantum_uav_uav.Crypto.{WolfCrypt, Pointer, succeeded, derive_lms_seed}
use post_quantum_uav_uav.Protocol.Config.{
  NodeConfig, signer_carried, repository_assisted, suite_id_for_mode,
}

pub record PeerPublicRecord : Type 0 where
  pub ready : Bool
  pub version : ℕ
  pub suite_id : ℕ
  pub status : ℕ
  pub expiry_unix : ℕ
  pub identifier : List ℕ
  pub root : List ℕ

abbrev pub credential_status_active : ℕ
credential_status_active = 1

-- `now` is what `time(nullptr)` gives.
unfoldable pub validate_peer_record : NodeConfig → PeerPublicRecord → ℕ → ℕ → Bool
validate_peer_record config peer_record now version =
    if not peer_record.ready
      || not (peer_record.version == version)
      || not (peer_record.version == config.peer_credential_version)
      || not (peer_record.suite_id == suite_id_for_mode config.path_mode)
      || not (peer_record.status == credential_status_active)
    then false
    else if not (peer_record.expiry_unix == 0)
    then not (ltb now 1700000000 || ltb peer_record.expiry_unix now)
    else true

-- `fetch` is `m_gcs.fetchPeerPath`.
unfoldable pub obtain_peer_path :
    NodeConfig → (ℕ → ℕ → Option (List ℕ)) → ℕ → ℕ → Pointer → Option (List ℕ)
obtain_peer_path config fetch version q carried_path = elim config.path_mode [
  | signer_carried ↦ carried_path >>= λ path. some (take 320 path)
  | repository_assisted ↦ fetch version q
]

-- `puf` is `PufFeProvider::reconstruct`.
unfoldable pub timed_runtime_seed : WolfCrypt → NodeConfig → Option (List ℕ) → Option (List ℕ)
timed_runtime_seed w config puf = puf >>= λ root. succeeded (
    derive_lms_seed w (some root) (some config.device_id) config.credential_version
      (some config.lms_identifier))

-- The calls of wolfSSL's ML-KEM, each with its code and what it stores.
pub record MlKem : Type 1 where
  pub Key : Type 0
  pub key_init : ℤ × Key
  pub make_key : Key → List ℕ → ℤ × Key
  pub encode_public_key : Key → ℤ × List ℕ
  pub decode_public_key : Key → List ℕ → ℤ × Key
  pub encapsulate : Key → List ℕ → ℤ × List ℕ × List ℕ
  pub decapsulate : Key → List ℕ → ℤ × List ℕ

-- A call of ML-KEM in a chain of them.
abbrev checked {ℓ} : {A : Type ℓ} → ℤ → A → Option A
checked ret a = if is_zero ret then some a else none

module _ (kem : MlKem) where
  -- `initializeKem` and the initiator's key: the key pair and the public key's bytes.
  unfoldable pub generate_key : List ℕ → Option (kem.Key × List ℕ)
  generate_key random = do
    empty ← checked kem.key_init.0 kem.key_init.1
    key ← checked (kem.make_key empty random).0 (kem.make_key empty random).1
    public_key ← checked (kem.encode_public_key key).0 (kem.encode_public_key key).1
    some (key, public_key)

  -- `initializeKem` and the responder's answer: the ciphertext and the shared secret.
  unfoldable pub answer_key : List ℕ → List ℕ → Option (List ℕ × List ℕ)
  answer_key public_key random = do
    empty ← checked kem.key_init.0 kem.key_init.1
    key ←
        checked (kem.decode_public_key empty public_key).0
          (kem.decode_public_key empty public_key).1
    let (ret, ciphertext, secret) = kem.encapsulate key random
    checked ret (ciphertext, secret)

  unfoldable pub open_ciphertext : kem.Key → List ℕ → Option (List ℕ)
  open_ciphertext key ciphertext =
      let (ret, secret) = kem.decapsulate key ciphertext in checked ret secret

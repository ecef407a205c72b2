-- ===== src/Protocol/Session.antt =====
-- The sessions of both roles, without timers, statistics and the measurement message RESULT: what a
-- node makes of each message that comes, up to the message it sends. `none` is the jump to `cleanup`.
-- The buffers hold the bytes of their message only.
use post_quantum_uav_uav.Prelude.{
  ℕ, Bool, ◌&&◌, Option, none, some, List, [], ◌∷◌, ◌==◌, drop, slice, replicate, ◌>>=◌, guard,
  write_fields,
}
use post_quantum_uav_uav.Codec.{put_u16, put_u32, byte_at, constant_time_equal}
use post_quantum_uav_uav.Crypto.{WolfCrypt, hash, Pointer}
use post_quantum_uav_uav.Lms.Tree.{Lms, sign, extract_path, verify}
use post_quantum_uav_uav.Protocol.Config.{
  NodeConfig, PathDeliveryMode, signer_carried, repository_assisted, m2_bytes_for_mode,
  m3_inner_bytes_for_mode,
}
use post_quantum_uav_uav.Protocol.Counter.{Nvs, FlashAnswer, reserve_q}
use post_quantum_uav_uav.Protocol.Hello.{validate_m1}
use post_quantum_uav_uav.Protocol.Signed.{build_m2_signed_input}
use post_quantum_uav_uav.Protocol.Transcript.{compute_sid0}
use post_quantum_uav_uav.Protocol.Peer.{
  PeerPublicRecord, obtain_peer_path, timed_runtime_seed, MlKem, generate_key,
}

-- What a session calls outside of the program.
pub record Services : Type 1 where
  pub w : WolfCrypt
  pub kem : MlKem
  pub fetch_peer_path : ℕ → ℕ → Option (List ℕ)
  pub puf : Option (List ℕ)
  pub now : ℕ

-- The fields of the class that a session reads.
pub record Node : Type 0 where
  pub config : NodeConfig
  pub lms : Lms
  pub peer_record : PeerPublicRecord

-- The random bytes and the flash store's answer in one session.
pub record Draws : Type 0 where
  pub kem_random : List ℕ
  pub sign_random : List ℕ
  pub flash : FlashAnswer

abbrev pub path_field : PathDeliveryMode → List ℕ → List (ℕ × List ℕ)
path_field signer_carried path = (320, path) ∷ []
path_field repository_assisted path = []

-- M2 and the inner part of M3: a signed key or ciphertext of `n` bytes.
abbrev pub signed_fields :
    ℕ → ℕ → PathDeliveryMode → List ℕ → ℕ → ℕ → List ℕ → List ℕ → List ℕ → List (ℕ × List ℕ)
signed_fields type n mode sid version q key signature path =
    (1, 1 ∷ [])
    ∷ (1, type ∷ [])
    ∷ (32, sid)
    ∷ (4, put_u32 version)
    ∷ (4, put_u32 q)
    ∷ (n, key)
    ∷ (2180, signature)
    ∷ path_field mode path

abbrev pub m2_fields :
    PathDeliveryMode → List ℕ → ℕ → ℕ → List ℕ → List ℕ → List ℕ → List (ℕ × List ℕ)
m2_fields mode sid version q public_key signature path =
    signed_fields 0x12 800 mode sid version q public_key signature path

abbrev pub m3_inner_fields :
    PathDeliveryMode → List ℕ → ℕ → ℕ → List ℕ → List ℕ → List ℕ → List (ℕ × List ℕ)
m3_inner_fields mode sid version q ciphertext signature path =
    signed_fields 0x14 768 mode sid version q ciphertext signature path

abbrev pub m3_fields : PathDeliveryMode → List ℕ → List ℕ → List ℕ → List (ℕ × List ℕ)
m3_fields mode sid inner tau_b =
    (1, 1 ∷ [])
    ∷ (1, 0x13 ∷ [])
    ∷ (32, sid)
    ∷ (2, put_u16 (m3_inner_bytes_for_mode mode))
    ∷ (m3_inner_bytes_for_mode mode, inner)
    ∷ (32, tau_b)
    ∷ []

abbrev pub m4_fields : List ℕ → List ℕ → List (ℕ × List ℕ)
m4_fields sid tau_a = (1, 1 ∷ []) ∷ (1, 0x15 ∷ []) ∷ (32, sid) ∷ (32, tau_a) ∷ []

-- The own path where the signer carries it.
abbrev pub own_path : Node → ℕ → Option (List ℕ)
own_path node q = elim node.config.path_mode [
  | signer_carried ↦ extract_path node.lms q
  | repository_assisted ↦ some []
]

abbrev pub carried_path : PathDeliveryMode → ℕ → List ℕ → Pointer
carried_path signer_carried offset message = some (slice offset 320 message)
carried_path repository_assisted offset message = none

-- The checks of a message's head: version, type and session identifier.
abbrev pub is_headed : ℕ → List ℕ → List ℕ → Bool
is_headed type sid message =
    (byte_at message 0 == 1)
    && (byte_at message 1 == type)
    && constant_time_equal (drop 2 message) sid 32

-- `if (!reserveQ(q)) goto cleanup;` in the middle of a session: a session that ends before it leaves
-- the counter alone.
abbrev pub with_index {ℓ κ} :
    {A : Type ℓ} {B : Type κ}
    → NodeConfig
    → FlashAnswer
    → Nvs
    → Option A
    → (A → ℕ → Option B)
    → Option B × Nvs
with_index config flash nvs none rest = (none, nvs)
with_index config flash nvs (some a) rest =
    let (q, next) = reserve_q config flash nvs in (q >>= rest a, next)

module _ (s : Services) (node : Node) where
  -- The signature over an input with the reserved index, and the own path.
  unfoldable pub sign_input : ℕ → List ℕ → List ℕ → Option (List ℕ × List ℕ)
  sign_input q input random = do
    seed ← timed_runtime_seed s.w node.config s.puf
    signature ← sign s.w node.lms q (some input) (some seed) random
    path ← own_path node q
    some (signature, path)

  -- The peer's signature over an input, under its record and its path.
  unfoldable pub check_signature : ℕ → ℕ → Pointer → List ℕ → List ℕ → Option (Unit {0})
  check_signature version q carried input signature = do
    path ← obtain_peer_path node.config s.fetch_peer_path version q carried
    guard (
        verify s.w q (some input) (some signature) (some node.peer_record.identifier) (some path)
          (some node.peer_record.root))

  -- What the initiator keeps while it waits for M3.
  pub record AwaitingM3 : Type 0 where
    pub sid : List ℕ
    pub key : s.kem.Key
    pub m2 : List ℕ
    pub hash_m2 : List ℕ

  -- `runInitiatorSession` from M1 to M2: before the index is reserved, and after.
  unfoldable pub initiator_before :
      List ℕ → List ℕ → List ℕ → List ℕ → Option (List ℕ × s.kem.Key × List ℕ)
  initiator_before m0 nonce_a m1 random = do
    nonce_b ← validate_m1 node.config m1 nonce_a
    sid ← compute_sid0 s.w m0 m1
    pair ← generate_key s.kem random
    some (sid, pair.0, pair.1)

  unfoldable pub initiator_after : List ℕ → s.kem.Key → List ℕ → List ℕ → ℕ → Option AwaitingM3
  initiator_after sid key public_key random q = do
    let version = node.config.credential_version
    signed ← sign_input q (build_m2_signed_input node.config sid version q public_key) random
    let mode = node.config.path_mode
    let m2 =
        write_fields 0 (m2_fields mode sid version q public_key signed.0 signed.1)
          (replicate (m2_bytes_for_mode mode) 0)
    hash_m2 ← hash s.w m2
    some record { sid = sid; key = key; m2 = m2; hash_m2 = hash_m2 }

  unfoldable pub initiator_m2 : Draws → Nvs → List ℕ → List ℕ → List ℕ → Option AwaitingM3 × Nvs
  initiator_m2 draws nvs m0 nonce_a m1 =
      with_index node.config draws.flash nvs (initiator_before m0 nonce_a m1 draws.kem_random)
        (λ ready. initiator_after ready.0 ready.1 ready.2 draws.sign_random)

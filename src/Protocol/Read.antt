-- ===== src/Protocol/Read.antt =====
-- ProposedUavProtocol.cpp: what the receiver reads from M2 and from the inner part of M3.
use post_quantum_uav_uav.Prelude.{
  ℕ, ◌^◌, ◌<◌, ◌≡◌, refl, sym, ap, ◌∙◌, true, some, none, List, [], ◌∷◌, ◌++◌, length, drop, slice,
  arith, ==_refl, joined, Sized, total, joined-step, joined-drop, joined-slice, length-append,
  take-append, take-all,
}
use post_quantum_uav_uav.Codec.{put_u32, get_u32}
use post_quantum_uav_uav.Codec.Integers.{get_u32-put_u32, length-put_u32}
use post_quantum_uav_uav.Codec.Compare.{constant_time_equal-take}
use post_quantum_uav_uav.Crypto.{Pointer}
use post_quantum_uav_uav.Protocol.Config.{PathDeliveryMode, signer_carried, repository_assisted}
use post_quantum_uav_uav.Protocol.Session.{signed_fields, path_field, carried_path, is_headed}

-- A message whose head is version, type and identifier.
pub headed :
    (type : ℕ) (sid rest : List ℕ)
    → length sid ≡ 32
    → is_headed type sid (1 ∷ type ∷ (sid ++ rest)) ≡ true
headed type sid rest hs =
    rw
      (
        ==_refl type,
        constant_time_equal-take (sid ++ rest) sid 32 (omega (arith, length-append sid rest))
            (omega arith) (take-append 32 sid rest hs ∙ sym (take-all 32 sid (omega arith))),
      )
      refl

get_u32-joined :
    (v : ℕ) (after : List (ℕ × List ℕ)) → v < 2 ^ 32 → get_u32 (joined ((4, put_u32 v) ∷ after)) ≡ v
get_u32-joined v after hv =
    ap get_u32 (sym (joined-step 4 (put_u32 v) after)) ∙ get_u32-put_u32 v (joined after) hv

-- The path that travels with the message.
abbrev pub sent_path : PathDeliveryMode → List ℕ → Pointer
sent_path signer_carried path = some path
sent_path repository_assisted path = none

module _ (type n : ℕ) (mode : PathDeliveryMode) (sid : List ℕ) (version q : ℕ)
    (key signature path : List ℕ) where
  pub record IsMessage : Type 0 where
    pub sid_size : length sid ≡ 32
    pub key_size : length key ≡ n
    pub signature_size : length signature ≡ 2180
    pub path_size : Sized (path_field mode path)
    pub version_fits : version < 2 ^ 32
    pub q_fits : q < 2 ^ 32

  abbrev pub message : List ℕ
  message = joined (signed_fields type n mode sid version q key signature path)

  abbrev head : List (ℕ × List ℕ)
  head = (1, 1 ∷ []) ∷ (1, type ∷ []) ∷ (32, sid) ∷ []

  abbrev tail : List (ℕ × List ℕ)
  tail = (2180, signature) ∷ path_field mode path

  abbrev before_q : List (ℕ × List ℕ)
  before_q = (1, 1 ∷ []) ∷ (1, type ∷ []) ∷ (32, sid) ∷ (4, put_u32 version) ∷ []

  abbrev before_key : List (ℕ × List ℕ)
  before_key = (1, 1 ∷ []) ∷ (1, type ∷ []) ∷ (32, sid) ∷ (4, put_u32 version) ∷ (4, put_u32 q) ∷ []

  abbrev before_signature : List (ℕ × List ℕ)
  before_signature =
      (1, 1 ∷ [])
      ∷ (1, type ∷ [])
      ∷ (32, sid)
      ∷ (4, put_u32 version)
      ∷ (4, put_u32 q)
      ∷ (n, key)
      ∷ []

  abbrev before_path : List (ℕ × List ℕ)
  before_path =
      (1, 1 ∷ [])
      ∷ (1, type ∷ [])
      ∷ (32, sid)
      ∷ (4, put_u32 version)
      ∷ (4, put_u32 q)
      ∷ (n, key)
      ∷ (2180, signature)
      ∷ []

  module _ (m : IsMessage) where
    pub message-Sized : Sized (signed_fields type n mode sid version q key signature path)
    message-Sized = (
      refl,
      (
        refl,
        (
          m.sid_size,
          (
            length-put_u32 version,
            (length-put_u32 q, (m.key_size, (m.signature_size, m.path_size))),
          ),
        ),
      ),
    )

    pub read_head : is_headed type sid message ≡ true
    read_head =
        headed type sid (joined ((4, put_u32 version) ∷ (4, put_u32 q) ∷ (n, key) ∷ tail))
          m.sid_size

    pub read_version : get_u32 (drop 34 message) ≡ version
    read_version =
        ap get_u32 (
          joined-drop head ((4, put_u32 version) ∷ (4, put_u32 q) ∷ (n, key) ∷ tail)
            (refl, (refl, (m.sid_size, tt))))
        ∙ get_u32-joined version ((4, put_u32 q) ∷ (n, key) ∷ tail) m.version_fits

    pub read_q : get_u32 (drop 38 message) ≡ q
    read_q =
        ap get_u32 (
          joined-drop before_q ((4, put_u32 q) ∷ (n, key) ∷ tail)
            (refl, (refl, (m.sid_size, (length-put_u32 version, tt)))))
        ∙ get_u32-joined q ((n, key) ∷ tail) m.q_fits

    pub read_key : slice 42 n message ≡ key
    read_key =
        joined-slice before_key tail n key
          (refl, (refl, (m.sid_size, (length-put_u32 version, (length-put_u32 q, tt))))) m.key_size

    pub read_signature : slice (total before_signature) 2180 message ≡ signature
    read_signature =
        joined-slice before_signature (path_field mode path) 2180 signature
          (
            refl,
            (refl, (m.sid_size, (length-put_u32 version, (length-put_u32 q, (m.key_size, tt))))),
          )
          m.signature_size

-- The path that came with the message, if any.
pub read_path :
    (type n : ℕ) (mode : PathDeliveryMode) (sid : List ℕ) (version q : ℕ)
    (key signature path : List ℕ)
    → IsMessage type n mode sid version q key signature path
    → carried_path mode
        (total (before_path type n mode sid version q key signature path))
        (message type n mode sid version q key signature path)
      ≡ sent_path mode path
read_path type n repository_assisted sid version q key signature path m = refl
read_path type n signer_carried sid version q key signature path m = ap some (
    joined-slice (before_path type n signer_carried sid version q key signature path) [] 320 path
      (
        refl,
        (
          refl,
          (
            m.sid_size,
            (length-put_u32 version, (length-put_u32 q, (m.key_size, (m.signature_size, tt)))),
          ),
        ),
      )
      m.path_size.0)

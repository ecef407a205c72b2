-- ===== src/Ledger/Enroll.antt =====
-- `enrollOwnRoot` and `enrollOwnPaths`. A root that is not there, which `memcpy` would read through a
-- null pointer, is a failed call here.
use post_quantum_uav_uav.Prelude.{
  ℕ, zero, suc, ◌+◌, ◌%◌, ◌^◌, Bool, true, false, ◌&&◌, ◌||◌, Option, none, some, List, ltb, ◌==◌,
  if◌then◌else◌, ◌>>=◌,
}
use post_quantum_uav_uav.Codec.{byte_at}
use post_quantum_uav_uav.Crypto.{WolfCrypt, uint32_max}
use post_quantum_uav_uav.Lms.Tree.{Lms, root, extract_path, lms_leaves}
use post_quantum_uav_uav.Ledger.Wire.{
  with_tag, root_record_body, path_record_body, root_record_bytes, path_record_bytes, ack_bytes,
  op_ack,
}
use post_quantum_uav_uav.Ledger.Client.{Client, Attempt, Awaited, send_and_receive}

-- `responseLength == ACK_BYTES && m_buffer[48] == 0`, after a response.
abbrev pub is_acknowledged : Option ℕ × Client → Bool
is_acknowledged (none, c) = false
is_acknowledged (some n, c) = (n == ack_bytes) && (byte_at c.buffer 48 == 0)

abbrev pub ack_for : ℕ → ℕ → Awaited
ack_for version q = record { expected_op = op_ack; expected_version = version; expected_q = q }

abbrev pub unless_failed : Bool × Client → Bool × Client → Bool × Client
unless_failed (true, c) rest = rest
unless_failed (false, c) rest = (false, c)

module _ (w : WolfCrypt) where
  -- The packets that are sent, where their tags can be computed.
  unfoldable pub root_request : Client → Lms → ℕ → ℕ → ℕ → ℕ → Option (List ℕ)
  root_request c lms version suite_id status expiry_unix = do
    own_root ← root lms
    with_tag w root_record_bytes
        (root_record_body c.device_id version lms.identifier own_root suite_id status expiry_unix)

  unfoldable pub path_request : Client → ℕ → ℕ → List ℕ → Option (List ℕ)
  path_request c version q path =
      with_tag w path_record_bytes (path_record_body c.device_id version q path)

  -- A request whose tag cannot be computed is not sent.
  abbrev pub asked : Option (List ℕ) → Awaited → (ℕ → Attempt) → Client → Option ℕ × Client
  asked none e attempts c = (none, c)
  asked (some request) e attempts c = send_and_receive w e request attempts c

  unfoldable pub enroll_own_root : Lms → ℕ → ℕ → ℕ → ℕ → (ℕ → Attempt) → Client → Bool × Client
  enroll_own_root lms version suite_id status expiry_unix attempts c =
      let answer =
        asked (root_request c lms version suite_id status expiry_unix) (ack_for version uint32_max)
          attempts c in
      (is_acknowledged answer, answer.1)

  -- One round of the loop of `enrollOwnPaths`.
  unfoldable pub enroll_path : Lms → ℕ → ℕ → (ℕ → Attempt) → Client → Bool × Client
  enroll_path lms version q attempts c =
      let answer =
        asked (extract_path lms q >>= λ path. path_request c version q path) (ack_for version q)
          attempts c in
      (is_acknowledged answer, answer.1)

  -- `for (i = 0; i < count; ++i)`, `rounds` to go; `attempts i` is what the rounds meet.
  unfoldable pub enroll_loop : Lms → ℕ → ℕ → (ℕ → ℕ → Attempt) → ℕ → ℕ → Client → Bool × Client
  enroll_loop lms version first_q attempts zero i c = (true, c)
  enroll_loop lms version first_q attempts (suc rounds) i c =
      let now = enroll_path lms version ((first_q + i) % 2 ^ 32) (attempts i) c in
      unless_failed now (enroll_loop lms version first_q attempts rounds (i + 1) now.1)

  unfoldable pub enroll_own_paths : Lms → ℕ → ℕ → ℕ → (ℕ → ℕ → Attempt) → Client → Bool × Client
  enroll_own_paths lms version first_q count attempts c =
      if (count == 0) || ltb lms_leaves ((first_q + count) % 2 ^ 32)
      then (false, c)
      else enroll_loop lms version first_q attempts count 0 c

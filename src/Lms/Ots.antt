-- ===== src/Lms/Ots.antt =====
-- LmotsLms.cpp: the one-time signature. What the source assembles in its scratch buffers and hashes
-- is the concatenation of the copied fields; `none` is a call that returned false.
use post_quantum_uav_uav.Prelude.{
  ℕ, zero, suc, ◌+◌, ◌-◌, ◌*◌, ◌/◌, ◌%◌, ◌^◌, Option, some, List, [], ◌∷◌, ◌++◌, leb, ◌==◌, guard,
  ◌>>=◌, ◌>>◌, if◌then◌else◌, length, slice,
}
use post_quantum_uav_uav.Codec.{byte_at, put_u16, put_u32, get_u32}
use post_quantum_uav_uav.Crypto.{WolfCrypt, hash}

abbrev pub lmots_type : ℕ
lmots_type = 3

-- The number of chains, P.
abbrev pub chains : ℕ
chains = 67

abbrev pub max_chain : ℕ
max_chain = 15

abbrev d_pblc : ℕ
d_pblc = 0x8080

abbrev d_mesg : ℕ
d_mesg = 0x8181

unfoldable pub coefficient_w4 : List ℕ → ℕ → ℕ
coefficient_w4 bytes index =
    let value = byte_at bytes (index / 2) in
    if index % 2 == 0 then value / 2 ^ 4 % 16 else value % 16

unfoldable pub derive_private_element : WolfCrypt → List ℕ → List ℕ → ℕ → ℕ → Option (List ℕ)
derive_private_element w identifier seed q chain_index =
    hash w (identifier ++ (put_u32 q ++ (put_u16 chain_index ++ (0xff ∷ seed))))

-- The loop of `chainHash` with `rounds` steps to go, from step `j` on.
unfoldable pub chain_loop : WolfCrypt → List ℕ → ℕ → ℕ → ℕ → ℕ → List ℕ → Option (List ℕ)
chain_loop w identifier q chain_index zero j current = some current
chain_loop w identifier q chain_index (suc rounds) j current = do
  next ← hash w (identifier ++ (put_u32 q ++ (put_u16 chain_index ++ (j ∷ current))))
  chain_loop w identifier q chain_index rounds (j + 1) next

unfoldable pub chain_hash : WolfCrypt → List ℕ → ℕ → ℕ → ℕ → ℕ → List ℕ → Option (List ℕ)
chain_hash w identifier q chain_index start_step end_step input =
    chain_loop w identifier q chain_index (end_step - start_step) start_step input

-- `checksum + MAX_CHAIN - coefficientW4(output, i)`; a coefficient is at most `max_chain`.
unfoldable pub checksum_loop : List ℕ → ℕ → ℕ → ℕ → ℕ
checksum_loop output zero i checksum = checksum
checksum_loop output (suc rounds) i checksum =
    checksum_loop output rounds (i + 1) ((checksum + max_chain - coefficient_w4 output i) % 2 ^ 16)

unfoldable pub with_checksum : List ℕ → List ℕ
with_checksum digest = digest ++ put_u16 (checksum_loop digest 64 0 0 * 2 ^ 4 % 2 ^ 16)

unfoldable pub hash_message_with_checksum :
    WolfCrypt → List ℕ → ℕ → List ℕ → List ℕ → ℕ → Option (List ℕ)
hash_message_with_checksum w identifier q c message scratch_length = do
  guard (leb (16 + 4 + 2 + 32 + length message) scratch_length)
  digest ← hash w (identifier ++ (put_u32 q ++ (put_u16 d_mesg ++ (c ++ message))))
  some (with_checksum digest)

-- The chain ends that `lmotsPublicHash` computes from chain `i` on.
unfoldable pub public_chains : WolfCrypt → List ℕ → List ℕ → ℕ → ℕ → ℕ → Option (List ℕ)
public_chains w identifier seed q zero i = some []
public_chains w identifier seed q (suc rounds) i = do
  x ← derive_private_element w identifier seed q i
  chain_end ← chain_hash w identifier q i 0 max_chain x
  rest ← public_chains w identifier seed q rounds (i + 1)
  some (chain_end ++ rest)

unfoldable pub lmots_public_hash : WolfCrypt → List ℕ → List ℕ → ℕ → Option (List ℕ)
lmots_public_hash w identifier seed q = do
  ends ← public_chains w identifier seed q chains 0
  hash w (identifier ++ (put_u32 q ++ (put_u16 d_pblc ++ ends)))

-- The signature elements that `sign` computes from chain `i` on.
unfoldable pub sign_chains : WolfCrypt → List ℕ → List ℕ → ℕ → List ℕ → ℕ → ℕ → Option (List ℕ)
sign_chains w identifier seed q digest_and_checksum zero i = some []
sign_chains w identifier seed q digest_and_checksum (suc rounds) i = do
  x ← derive_private_element w identifier seed q i
  y ← chain_hash w identifier q i 0 (coefficient_w4 digest_and_checksum i) x
  rest ← sign_chains w identifier seed q digest_and_checksum rounds (i + 1)
  some (y ++ rest)

-- The chain ends that a signature leads to, from chain `i` on.
unfoldable pub candidate_chains : WolfCrypt → List ℕ → ℕ → List ℕ → List ℕ → ℕ → ℕ → Option (List ℕ)
candidate_chains w identifier q digest_and_checksum y_array zero i = some []
candidate_chains w identifier q digest_and_checksum y_array (suc rounds) i = do
  chain_end ←
      chain_hash w identifier q i (coefficient_w4 digest_and_checksum i) max_chain
        (slice (i * 32) 32 y_array)
  rest ← candidate_chains w identifier q digest_and_checksum y_array rounds (i + 1)
  some (chain_end ++ rest)

unfoldable pub lmots_candidate_public_hash :
    WolfCrypt → List ℕ → ℕ → List ℕ → List ℕ → Option (List ℕ)
lmots_candidate_public_hash w identifier q message signature = do
  guard (get_u32 signature == lmots_type)
  digest_and_checksum ←
      hash_message_with_checksum w identifier q (slice 4 32 signature) message 1024
  ends ← candidate_chains w identifier q digest_and_checksum (slice 36 (67 * 32) signature) chains 0
  hash w (identifier ++ (put_u32 q ++ (put_u16 d_pblc ++ ends)))

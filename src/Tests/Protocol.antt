-- ===== src/Tests/Protocol.antt =====
-- Messages, signed inputs, transcripts and the counter at concrete inputs.
use post_quantum_uav_uav.Prelude.{
  ℕ, ◌≡◌, ◌≢◌, ◌↔◌, ◌⊎◌, refl, true, false, some, none, List, [], ◌∷◌, ◌++◌, All, All-replicate,
  length, replicate, length-replicate, take, slice, ◌>>=◌, arith, append_assoc,
}
use post_quantum_uav_uav.Codec.{IsByte}
use post_quantum_uav_uav.Prelude.Int.{pos}
use post_quantum_uav_uav.Crypto.{hash, succeeded}
use post_quantum_uav_uav.Crypto.Hkdf.{rfc5869}
use post_quantum_uav_uav.Protocol.Config.{NodeConfig, initiator, responder, repository_assisted}
use post_quantum_uav_uav.Protocol.Counter.{
  get_next_q, reserved, happen, reserve_q, initialize_persistent_counter, reserve, lose_power,
  restart, works, failed, Event,
}
use post_quantum_uav_uav.Protocol.Reserve.{
  reserved-IsIncreasing, reserved_all, IsIncreasing, IsInRange, reservations, range,
}
use post_quantum_uav_uav.Protocol.Hello.{build_m0, validate_m0, build_m1, validate_m1}
use post_quantum_uav_uav.Protocol.Greet.{IsNode}
use post_quantum_uav_uav.Protocol.Accept.{Mirrors, validate_m0_iff, validate_m1_iff}
use post_quantum_uav_uav.Protocol.Signed.{id_a, id_b, build_m2_signed_input, build_m3_signed_input}
use post_quantum_uav_uav.Protocol.Bind.{
  build_m2_signed_input-injective, build_m3_signed_input-injective,
  build_m2_signed_input-build_m3_signed_input,
}
use post_quantum_uav_uav.Protocol.Transcript.{derive_session_keys, tagged, domain_uav_ake}
use post_quantum_uav_uav.Protocol.Encoding.{IsIncremental, timed_transcript_hash-hash, transcript}
use post_quantum_uav_uav.Protocol.Agreement.{
  Inputs, IsReady, Agree, Collide, hash_of, timed_transcript_hash_binds,
}
use post_quantum_uav_uav.Protocol.Keys.{derive_session_keys-rfc5869}
use post_quantum_uav_uav.Protocol.Live.{timed_transcript_hash_total}
use post_quantum_uav_uav.Tests.Toy.{toy, toy-IsDocumented, toy-IsReliable, toy-IsReliableHmac}

abbrev pub uav_a : NodeConfig
uav_a = record {
  role = initiator;
  path_mode = repository_assisted;
  gcs_ip = 1;
  responder_ip = 2;
  protocol_port = 4210;
  gcs_port = 5001;
  gcs_local_port = 5210;
  device_id = replicate 32 10;
  peer_id = replicate 32 11;
  hardcoded_puf_root = replicate 32 1;
  hardcoded_helper_data = replicate 32 2;
  lms_identifier = replicate 16 3;
  credential_version = 1;
  peer_credential_version = 1;
  credential_expiry_unix = 0;
  first_q = 4;
  number_of_sessions = 3;
  reset_q_counter = false;
}

abbrev pub uav_b : NodeConfig
uav_b = record uav_a { role = responder; device_id = replicate 32 11; peer_id = replicate 32 10 }

sized : (n b : ℕ) → length (replicate n b) ≡ n
sized n b = length-replicate n b

bytes : (n b : ℕ) → IsByte b → All IsByte (replicate n b)
bytes n b h = All-replicate IsByte n b h

pub uav_a-IsNode : IsNode uav_a
uav_a-IsNode = record {
  device_size = sized 32 10;
  device_bytes = bytes 32 10 (omega arith);
  peer_size = sized 32 11;
  peer_bytes = bytes 32 11 (omega arith);
}

pub uav_b-IsNode : IsNode uav_b
uav_b-IsNode = record {
  device_size = sized 32 11;
  device_bytes = bytes 32 11 (omega arith);
  peer_size = sized 32 10;
  peer_bytes = bytes 32 10 (omega arith);
}

pub mirrors : Mirrors uav_b uav_a
mirrors = record { sender = refl; receiver = refl; mode = refl }

pub mirrors' : Mirrors uav_a uav_b
mirrors' = record { sender = refl; receiver = refl; mode = refl }

abbrev life : List Event
life =
    reserve works
    ∷ reserve (record { reads = true; put = failed true })
    ∷ lose_power true false
    ∷ restart true works
    ∷ reserve works
    ∷ reserve works
    ∷ []

-- The failed write has used up the index 5.
life_run : reserved uav_a none life ≡ 4 ∷ 6 ∷ []
unfolding reserved happen reserve_q initialize_persistent_counter
life_run = refl

reserved-IsIncreasing_example :
    IsIncreasing (get_next_q uav_a true none) (reserved uav_a none life)
    × All (IsInRange uav_a) (reserved uav_a none life)
reserved-IsIncreasing_example =
    reserved-IsIncreasing uav_a none life refl (refl, (refl, (refl, (tt, (refl, (refl, tt))))))

reserved_all_example : reserved uav_a (some 5) (reservations 2 ++ reservations 4) ≡ range 5 2
reserved_all_example = reserved_all uav_a 5 2 4 (omega arith) refl (omega arith)

abbrev nonce_a : List ℕ
nonce_a = replicate 16 20

abbrev nonce_b : List ℕ
nonce_b = replicate 16 21

abbrev some_m0 : List ℕ
some_m0 = replicate 86 1

abbrev some_m1 : List ℕ
some_m1 = replicate 102 1

validate_m0_iff_example :
    (validate_m0 uav_b some_m0 nonce_a ≡ true) ↔ (some_m0 ≡ build_m0 uav_a nonce_a)
validate_m0_iff_example =
    validate_m0_iff uav_b uav_a nonce_a some_m0 uav_b-IsNode mirrors (sized 16 20)
      (bytes 16 20 (omega arith)) (sized 86 1) (bytes 86 1 (omega arith))

validate_m1_iff_example :
    (validate_m1 uav_a some_m1 nonce_a ≡ some nonce_b) ↔ (some_m1 ≡ build_m1 uav_b nonce_a nonce_b)
validate_m1_iff_example =
    validate_m1_iff uav_a uav_b nonce_a nonce_b some_m1 uav_a-IsNode mirrors' (sized 16 20)
      (bytes 16 20 (omega arith)) (sized 16 21) (sized 102 1) (bytes 102 1 (omega arith))

abbrev version : ℕ
version = 1

abbrev index : ℕ
index = 5

abbrev sid : List ℕ
sid = replicate 32 30

abbrev hash_m2 : List ℕ
hash_m2 = replicate 32 31

abbrev key : List ℕ
key = replicate 800 40

abbrev ciphertext : List ℕ
ciphertext = replicate 768 41

build_m2_signed_input-injective_example :
    (sid ≡ sid)
    × (id_a uav_a ≡ id_a uav_a)
    × (id_b uav_a ≡ id_b uav_a)
    × (version ≡ version)
    × (index ≡ index)
    × (key ≡ key)
build_m2_signed_input-injective_example =
    build_m2_signed_input-injective uav_a uav_a sid sid version version index index key key
      uav_a-IsNode uav_a-IsNode (sized 32 30) (sized 32 30) (sized 800 40) (sized 800 40)
      (omega arith) (omega arith) (omega arith) (omega arith) refl

build_m3_signed_input-injective_example :
    (sid ≡ sid)
    × (hash_m2 ≡ hash_m2)
    × (id_a uav_b ≡ id_a uav_b)
    × (id_b uav_b ≡ id_b uav_b)
    × (version ≡ version)
    × (index ≡ index)
    × (ciphertext ≡ ciphertext)
build_m3_signed_input-injective_example =
    build_m3_signed_input-injective uav_b uav_b sid sid hash_m2 hash_m2 version version index index
      ciphertext ciphertext uav_b-IsNode uav_b-IsNode (sized 32 30) (sized 32 30) (sized 32 31)
      (sized 32 31) (sized 768 41) (sized 768 41) (omega arith) (omega arith) (omega arith)
      (omega arith) refl

build_m2_signed_input-build_m3_signed_input_example :
    build_m2_signed_input uav_a sid 1 5 key ≢ build_m3_signed_input uav_a sid hash_m2 1 5 ciphertext
build_m2_signed_input-build_m3_signed_input_example =
    build_m2_signed_input-build_m3_signed_input uav_a uav_a sid sid hash_m2 1 1 5 5 key ciphertext
      uav_a-IsNode uav_a-IsNode (sized 32 30) (sized 32 30) (sized 32 31) (sized 800 40)
      (sized 768 41) (omega arith) (omega arith)

toy-IsIncremental : IsIncremental toy
toy-IsIncremental = record { in_parts = λ s a b. λ k. (pos 0, append_assoc s a b k) }

abbrev inputs : Inputs
inputs = record {
  sid = sid;
  m0 = some_m0;
  m1 = some_m1;
  m2 = replicate 3342 5;
  m2_length = 3022;
  m3_inner = replicate 3310 6;
  m3_inner_length = 2990;
}

ready : IsReady inputs
ready = record {
  sid_size = sized 32 30;
  m0_size = sized 86 1;
  m1_size = sized 102 1;
  m2_size = omega (arith, sized 3342 5);
  m2_short = omega arith;
  m3_size = omega (arith, sized 3310 6);
  m3_short = omega arith;
}

timed_transcript_hash-hash_example :
    hash_of toy inputs
    ≡ hash toy (
        transcript (take 32 sid) (
          take 86 some_m0
          ∷ take 102 some_m1
          ∷ take 3022 (replicate 3342 5)
          ∷ take 2990 (replicate 3310 6)
          ∷ []))
timed_transcript_hash-hash_example =
    timed_transcript_hash-hash toy sid some_m0 some_m1 (replicate 3342 5) (replicate 3310 6) 3022
      2990 toy-IsReliable toy-IsIncremental (omega (arith, sized 86 1)) (omega (arith, sized 102 1))
      (omega (arith, sized 3342 5)) (omega arith) (omega (arith, sized 3310 6)) (omega arith)

inputs_hash : (digest : List ℕ) × (hash_of toy inputs ≡ some digest)
inputs_hash =
    let (digest, e) =
      timed_transcript_hash_total toy toy-IsDocumented toy-IsReliable toy-IsReliableHmac sid some_m0
        some_m1 (replicate 3342 5) 3022 (replicate 3310 6) 2990 (omega arith) (omega arith) in
    (digest, e)

timed_transcript_hash_binds_example : Agree inputs inputs ⊎ Collide toy inputs inputs
timed_transcript_hash_binds_example =
    timed_transcript_hash_binds toy inputs inputs toy-IsReliable toy-IsIncremental ready ready
      inputs_hash.0 inputs_hash.1 inputs_hash.1

derive_session_keys-rfc5869_example : derive_session_keys toy sid hash_m2 ≡ (
    succeeded (rfc5869 toy sid hash_m2 (tagged domain_uav_ake hash_m2) 96) >>= λ okm.
    some (slice 0 32 okm, slice 32 32 okm, slice 64 32 okm))
derive_session_keys-rfc5869_example =
    derive_session_keys-rfc5869 toy sid hash_m2 toy-IsDocumented (sized 32 30) (sized 32 31)

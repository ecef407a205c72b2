-- ===== src/Protocol/Greet.antt =====
-- ProposedUavProtocol.cpp: the layout of M0 and M1, built and recognised.
use post_quantum_uav_uav.Prelude.{
  ℕ, ◌+◌, ◌^◌, ◌≤◌, ◌<◌, ◌≡◌, ◌↔◌, refl, sym, ap, ◌∙◌, Bool, true, ◌&&◌, List, [], ◌∷◌, ◌++◌, All,
  length, ◌==◌, drop, take, slice, arith, &&_iff, ==_iff, ==_refl, write_fields-zeros,
  slice-append-drop, take-all, append_assoc, append-nil, length-append, length-drop, All-drop,
  take-append, drop-drop, drop-append,
}
use post_quantum_uav_uav.Codec.{IsByte, put_u32, get_u32, byte_at, constant_time_equal}
use post_quantum_uav_uav.Codec.Integers.{length-put_u32, get_u32-put_u32, put_u32-get_u32}
use post_quantum_uav_uav.Codec.Compare.{constant_time_equal_iff}
use post_quantum_uav_uav.Protocol.Config.{NodeConfig, suite_id_for_mode}
use post_quantum_uav_uav.Protocol.Hello.{build_m0, build_m1, msg_m0_req, msg_m1_chal}

-- The identities of a configuration: 32 bytes each.
pub record IsNode (config : NodeConfig) : Type 0 where
  pub device_size : length config.device_id ≡ 32
  pub device_bytes : All IsByte config.device_id
  pub peer_size : length config.peer_id ≡ 32
  pub peer_bytes : All IsByte config.peer_id

-- Version, type, sender, receiver, nonces and suite.
abbrev pub greeting : ℕ → List ℕ → List ℕ → List ℕ → ℕ → List ℕ
greeting type from to nonces suite = 1 ∷ type ∷ (from ++ (to ++ (nonces ++ put_u32 suite)))

pub build_m0-greeting :
    (config : NodeConfig) (nonce_a : List ℕ)
    → IsNode config
    → length nonce_a ≡ 16
    → build_m0 config nonce_a
      ≡ greeting msg_m0_req config.device_id config.peer_id nonce_a
          (suite_id_for_mode config.path_mode)
unfolding build_m0
build_m0-greeting config nonce_a node hn =
    write_fields-zeros
      ((1, 1 ∷ [])
        ∷ (1, msg_m0_req ∷ [])
        ∷ (32, config.device_id)
        ∷ (32, config.peer_id)
        ∷ (16, nonce_a)
        ∷ (4, put_u32 (suite_id_for_mode config.path_mode))
        ∷ [])
      86 (refl, (refl, (node.device_size, (node.peer_size, (hn, (length-put_u32 _, tt)))))) refl

pub build_m1-greeting :
    (config : NodeConfig) (nonce_a nonce_b : List ℕ)
    → IsNode config
    → length nonce_a ≡ 16
    → length nonce_b ≡ 16
    → build_m1 config nonce_a nonce_b
      ≡ greeting msg_m1_chal config.device_id config.peer_id
          (nonce_a ++ nonce_b)
          (suite_id_for_mode config.path_mode)
unfolding build_m1
build_m1-greeting config nonce_a nonce_b node ha hb =
    let suite = put_u32 (suite_id_for_mode config.path_mode) in
    write_fields-zeros
      ((1, 1 ∷ [])
        ∷ (1, msg_m1_chal ∷ [])
        ∷ (32, config.device_id)
        ∷ (32, config.peer_id)
        ∷ (16, nonce_a)
        ∷ (16, nonce_b)
        ∷ (4, suite)
        ∷ [])
      102 (refl, (refl, (node.device_size, (node.peer_size, (ha, (hb, (length-put_u32 _, tt)))))))
      refl
    ∙ ap (λ t. 1 ∷ msg_m1_chal ∷ (config.device_id ++ (config.peer_id ++ t)))
        (sym (append_assoc nonce_a nonce_b suite))

-- The tests that both messages go through; the suite stands at `at`.
abbrev pub matches : ℕ → List ℕ → List ℕ → List ℕ → ℕ → ℕ → List ℕ → Bool
matches type from to nonce_a suite at m =
    (byte_at m 0 == 1)
    && (byte_at m 1 == type)
    && constant_time_equal (drop 2 m) from 32
    && constant_time_equal (drop 34 m) to 32
    && constant_time_equal (drop 66 m) nonce_a 16
    && (get_u32 (drop at m) == suite)

equal_field :
    (offset k : ℕ) (m field : List ℕ)
    → offset + k ≤ length m
    → All IsByte m
    → length field ≡ k
    → All IsByte field
    → (constant_time_equal (drop offset m) field k ≡ true) ↔ (slice offset k m ≡ field)
equal_field offset k m field hm bm hf bf =
    let test =
      constant_time_equal_iff (drop offset m) field k (omega (arith, length-drop offset m))
        (omega arith) (All-drop IsByte offset m bm) bf in
    (
      λ h. test.0 h ∙ take-all k field (omega arith),
      λ e. test.1 (e ∙ sym (take-all k field (omega arith))),
    )

first_two : (m : List ℕ) → 2 ≤ length m → m ≡ byte_at m 0 ∷ byte_at m 1 ∷ drop 2 m
first_two [] h = absurd (omega arith)
first_two (a ∷ []) h = absurd (omega arith)
first_two (a ∷ b ∷ m) h = refl

module _ (type suite r : ℕ) (from to nonce_a m : List ℕ) where
  -- The fields of any message of this size.
  fields_of :
      length m ≡ 86 + r
      → m
        ≡ byte_at m 0
          ∷ byte_at m 1
          ∷ (slice 2 32 m
              ++ (slice 34 32 m ++ ((slice 66 16 m ++ slice 82 r m) ++ drop (82 + r) m)))
  fields_of hm =
      first_two m (omega arith)
      ∙ ap (λ t. byte_at m 0 ∷ byte_at m 1 ∷ t)
          (sym (slice-append-drop 2 32 m)
            ∙ ap (◌++◌ (slice 2 32 m)) (
                sym (slice-append-drop 34 32 m)
                ∙ ap (◌++◌ (slice 34 32 m)) (
                    sym (slice-append-drop 66 16 m)
                    ∙ ap (◌++◌ (slice 66 16 m)) (sym (slice-append-drop 82 r m))
                    ∙ sym (append_assoc (slice 66 16 m) (slice 82 r m) (drop (82 + r) m)))))

  pub record IsPlain : Type 0 where
    pub size : length m ≡ 86 + r
    pub bytes : All IsByte m
    pub from_size : length from ≡ 32
    pub from_bytes : All IsByte from
    pub to_size : length to ≡ 32
    pub to_bytes : All IsByte to
    pub nonce_size : length nonce_a ≡ 16
    pub nonce_bytes : All IsByte nonce_a
    pub suite_fits : suite < 2 ^ 32

  pub matches→greeting :
      IsPlain
      → matches type from to nonce_a suite (82 + r) m ≡ true
      → m ≡ greeting type from to (nonce_a ++ slice 82 r m) suite
  matches→greeting plain h =
      let (h, h5) =
        (&&_iff
            ((byte_at m 0 == 1)
              && (byte_at m 1 == type)
              && (constant_time_equal (drop 2 m) from 32)
              && (constant_time_equal (drop 34 m) to 32)
              && (constant_time_equal (drop 66 m) nonce_a 16))
            (get_u32 (drop (82 + r) m) == suite)).0
          h in
      let (h, h4) =
        (&&_iff
            ((byte_at m 0 == 1)
              && (byte_at m 1 == type)
              && (constant_time_equal (drop 2 m) from 32)
              && (constant_time_equal (drop 34 m) to 32))
            (constant_time_equal (drop 66 m) nonce_a 16)).0
          h in
      let (h, h3) =
        (&&_iff
            ((byte_at m 0 == 1)
              && (byte_at m 1 == type)
              && (constant_time_equal (drop 2 m) from 32))
            (constant_time_equal (drop 34 m) to 32)).0
          h in
      let (h, h2) =
        (&&_iff ((byte_at m 0 == 1) && (byte_at m 1 == type))
            (constant_time_equal (drop 2 m) from 32)).0
          h in
      let (h0, h1) = (&&_iff ((byte_at m 0 == 1)) (byte_at m 1 == type)).0 h in
      let version : byte_at m 0 ≡ 1 = (==_iff _ _).0 h0 in
      let kind : byte_at m 1 ≡ type = (==_iff _ _).0 h1 in
      let sender =
        (equal_field 2 32 m from (omega (arith, plain.size)) plain.bytes plain.from_size
            plain.from_bytes).0
          h2 in
      let receiver =
        (equal_field 34 32 m to (omega (arith, plain.size)) plain.bytes plain.to_size
            plain.to_bytes).0
          h3 in
      let nonce =
        (equal_field 66 16 m nonce_a (omega (arith, plain.size)) plain.bytes plain.nonce_size
            plain.nonce_bytes).0
          h4 in
      let last : drop (82 + r) m ≡ put_u32 suite =
        sym (
          put_u32-get_u32 (drop (82 + r) m) (omega (arith, length-drop (82 + r) m, plain.size))
            (All-drop IsByte (82 + r) m plain.bytes))
        ∙ ap put_u32 ((==_iff _ _).0 h5) in
      fields_of plain.size ∙ (λ k.
        version k ∷ kind k ∷ (sender k ++ (receiver k ++ ((nonce k ++ slice 82 r m) ++ last k))))

  drops :
      (nonce_b : List ℕ)
      → IsPlain
      → m ≡ greeting type from to (nonce_a ++ nonce_b) suite
      → (drop 2 m ≡ from ++ (to ++ ((nonce_a ++ nonce_b) ++ put_u32 suite)))
        × (drop 34 m ≡ to ++ ((nonce_a ++ nonce_b) ++ put_u32 suite))
        × (drop 66 m ≡ (nonce_a ++ nonce_b) ++ put_u32 suite)
  drops nonce_b plain e =
      let d2 : drop 2 m ≡ from ++ (to ++ ((nonce_a ++ nonce_b) ++ put_u32 suite)) = ap (drop 2) e in
      let d34 : drop 34 m ≡ to ++ ((nonce_a ++ nonce_b) ++ put_u32 suite) =
        sym (drop-drop 32 2 m) ∙ ap (drop 32) d2 ∙ drop-append 32 from _ plain.from_size in
      let d66 : drop 66 m ≡ (nonce_a ++ nonce_b) ++ put_u32 suite =
        sym (drop-drop 32 34 m) ∙ ap (drop 32) d34 ∙ drop-append 32 to _ plain.to_size in
      (d2, d34, d66)

  -- The second nonce of such a message.
  pub greeting-nonce_b :
      (nonce_b : List ℕ)
      → IsPlain
      → length nonce_b ≡ r
      → m ≡ greeting type from to (nonce_a ++ nonce_b) suite
      → slice 82 r m ≡ nonce_b
  greeting-nonce_b nonce_b plain hb e =
      ap (take r) (
        sym (drop-drop 16 66 m)
        ∙ ap (drop 16) ((drops nonce_b plain e).2 ∙ append_assoc nonce_a nonce_b (put_u32 suite))
        ∙ drop-append 16 nonce_a _ plain.nonce_size)
      ∙ take-append r nonce_b _ hb

  pub greeting→matches :
      (nonce_b : List ℕ)
      → IsPlain
      → length nonce_b ≡ r
      → m ≡ greeting type from to (nonce_a ++ nonce_b) suite
      → matches type from to nonce_a suite (82 + r) m ≡ true
  greeting→matches nonce_b plain hb e =
      let (d2, d34, d66) = drops nonce_b plain e in
      let last : drop (82 + r) m ≡ put_u32 suite =
        ap (λ (k : ℕ). drop k m) (omega arith)
        ∙ sym (drop-drop (16 + r) 66 m)
        ∙ ap (drop (16 + r)) d66
        ∙ drop-append (16 + r) (nonce_a ++ nonce_b) _
            (omega (arith, length-append nonce_a nonce_b, plain.nonce_size)) in
      let nonces : slice 66 16 m ≡ nonce_a =
        ap (take 16) (d66 ∙ append_assoc nonce_a nonce_b (put_u32 suite))
        ∙ take-append 16 nonce_a _ plain.nonce_size in
      rw
        (
          ap (λ t. byte_at t 0 == 1) e,
          ap (λ t. byte_at t 1 == type) e ∙ ==_refl type,
          (equal_field 2 32 m from (omega (arith, plain.size)) plain.bytes plain.from_size
                plain.from_bytes).1
              (ap (take 32) d2 ∙ take-append 32 from _ plain.from_size),
          (equal_field 34 32 m to (omega (arith, plain.size)) plain.bytes plain.to_size
                plain.to_bytes).1
              (ap (take 32) d34 ∙ take-append 32 to _ plain.to_size),
          (equal_field 66 16 m nonce_a (omega (arith, plain.size)) plain.bytes plain.nonce_size
                plain.nonce_bytes).1
              nonces,
          last,
        )
        ((==_iff _ suite).1 read)
    where
      read : get_u32 (put_u32 suite) ≡ suite
      read =
          ap get_u32 (sym (append-nil (put_u32 suite))) ∙ get_u32-put_u32 suite [] plain.suite_fits

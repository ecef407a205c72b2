-- ===== src/Protocol/Domains.antt =====
-- ProposedUavProtocol.cpp: the layout of the signed inputs of M2 and M3.
use post_quantum_uav_uav.Prelude.{
  ℕ, ◌^◌, ◌<◌, ◌≡◌, refl, ap, ◌∙◌, List, [], ◌∷◌, length, get_or, joined, Sized, write_fields-zeros,
  joined-injective, length-joined,
}
use post_quantum_uav_uav.Codec.{put_u16, put_u32}
use post_quantum_uav_uav.Codec.Integers.{length-put_u16, length-put_u32, put_u32-injective}
use post_quantum_uav_uav.Protocol.Config.{NodeConfig, Role, initiator, responder}
use post_quantum_uav_uav.Protocol.Greet.{IsNode}
use post_quantum_uav_uav.Protocol.Signed.{
  choose, id_a, id_b, wrap_mu, build_m2_signed_input, build_m3_signed_input, domain_init,
  domain_resp, domain_lmots_sign,
}

abbrev pub field_at : ℕ → List (ℕ × List ℕ) → List ℕ
field_at i fields = (get_or {A = ℕ × List ℕ} fields i (0, [])).1

abbrev pub wrapped : List ℕ → ℕ → List (ℕ × List ℕ)
wrapped mu q =
    (1, 1 ∷ []) ∷ (1, domain_lmots_sign ∷ []) ∷ (2, put_u16 902) ∷ (902, mu) ∷ (4, put_u32 q) ∷ []

pub wrapped-Sized : (mu : List ℕ) (q : ℕ) → length mu ≡ 902 → Sized (wrapped mu q)
wrapped-Sized mu q h = (refl, (refl, (length-put_u16 902, (h, (length-put_u32 q, tt)))))

wrap_mu-joined : (mu : List ℕ) (q : ℕ) → length mu ≡ 902 → wrap_mu mu q ≡ joined (wrapped mu q)
wrap_mu-joined mu q h = write_fields-zeros (wrapped mu q) 910 (wrapped-Sized mu q h) refl

-- The wrapping determines the object and the index.
pub wrapped-injective :
    (mu nu : List ℕ) (q r : ℕ)
    → length mu ≡ 902
    → length nu ≡ 902
    → q < 2 ^ 32
    → r < 2 ^ 32
    → joined (wrapped mu q) ≡ joined (wrapped nu r)
    → (mu ≡ nu) × (q ≡ r)
wrapped-injective mu nu q r hm hn hq hr e =
    let same =
      joined-injective (wrapped mu q) (wrapped nu r) (refl, (refl, (refl, (refl, (refl, tt)))))
        (wrapped-Sized mu q hm) (wrapped-Sized nu r hn) e in
    (ap (field_at 3) same, put_u32-injective q r hq hr (ap (field_at 4) same))

choose-size :
    (role : Role) (own peers : List ℕ)
    → length own ≡ 32
    → length peers ≡ 32
    → length (choose role own peers) ≡ 32
choose-size initiator own peers ho hp = ho
choose-size responder own peers ho hp = hp

abbrev pub init_fields : NodeConfig → List ℕ → ℕ → List ℕ → List (ℕ × List ℕ)
init_fields config sid version public_key =
    (1, 1 ∷ [])
    ∷ (1, domain_init ∷ [])
    ∷ (32, sid)
    ∷ (32, id_a config)
    ∷ (32, id_b config)
    ∷ (4, put_u32 version)
    ∷ (800, public_key)
    ∷ []

abbrev pub resp_fields : NodeConfig → List ℕ → List ℕ → ℕ → List ℕ → List (ℕ × List ℕ)
resp_fields config sid hash_m2 version ciphertext =
    (1, 1 ∷ [])
    ∷ (1, domain_resp ∷ [])
    ∷ (32, sid)
    ∷ (32, hash_m2)
    ∷ (32, id_a config)
    ∷ (32, id_b config)
    ∷ (4, put_u32 version)
    ∷ (768, ciphertext)
    ∷ []

module _ (config : NodeConfig) (node : IsNode config) (sid : List ℕ) (hs : length sid ≡ 32) where
  ids-size : (length (id_a config) ≡ 32) × (length (id_b config) ≡ 32)
  ids-size = (
    choose-size config.role config.device_id config.peer_id node.device_size node.peer_size,
    choose-size config.role config.peer_id config.device_id node.peer_size node.device_size,
  )

  module _ (version : ℕ) (public_key : List ℕ) (hk : length public_key ≡ 800) where
    pub init_fields-Sized : Sized (init_fields config sid version public_key)
    init_fields-Sized =
        (refl, (refl, (hs, (ids-size.0, (ids-size.1, (length-put_u32 version, (hk, tt)))))))

    pub init-size : length (joined (init_fields config sid version public_key)) ≡ 902
    init-size = length-joined (init_fields config sid version public_key) init_fields-Sized

    -- The layout of the signed input of M2.
    pub build_m2_signed_input-wrapped :
        (q : ℕ)
        → build_m2_signed_input config sid version q public_key
          ≡ joined (wrapped (joined (init_fields config sid version public_key)) q)
    unfolding build_m2_signed_input
    build_m2_signed_input-wrapped q =
        ap (λ m. wrap_mu m q)
          (write_fields-zeros (init_fields config sid version public_key) 902 init_fields-Sized
            refl)
        ∙ wrap_mu-joined (joined (init_fields config sid version public_key)) q init-size

  module _ (hash_m2 : List ℕ) (hh : length hash_m2 ≡ 32) (version : ℕ) (ciphertext : List ℕ)
      (hc : length ciphertext ≡ 768) where
    pub resp_fields-Sized : Sized (resp_fields config sid hash_m2 version ciphertext)
    resp_fields-Sized =
        (refl, (refl, (hs, (hh, (ids-size.0, (ids-size.1, (length-put_u32 version, (hc, tt))))))))

    pub resp-size : length (joined (resp_fields config sid hash_m2 version ciphertext)) ≡ 902
    resp-size = length-joined (resp_fields config sid hash_m2 version ciphertext) resp_fields-Sized

    -- The layout of the signed input of M3.
    pub build_m3_signed_input-wrapped :
        (q : ℕ)
        → build_m3_signed_input config sid hash_m2 version q ciphertext
          ≡ joined (wrapped (joined (resp_fields config sid hash_m2 version ciphertext)) q)
    unfolding build_m3_signed_input
    build_m3_signed_input-wrapped q =
        ap (λ m. wrap_mu m q)
          (write_fields-zeros (resp_fields config sid hash_m2 version ciphertext) 902
            resp_fields-Sized refl)
        ∙ wrap_mu-joined (joined (resp_fields config sid hash_m2 version ciphertext)) q resp-size

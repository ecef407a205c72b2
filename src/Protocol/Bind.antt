-- ===== src/Protocol/Bind.antt =====
-- ProposedUavProtocol.cpp: the signed inputs of M2 and M3 determine what they were built from.
use post_quantum_uav_uav.Prelude.{
  ℕ, ◌^◌, ◌<◌, ◌≡◌, ◌≢◌, refl, sym, ap, ◌∙◌, List, length, arith, joined, joined-injective,
}
use post_quantum_uav_uav.Codec.{byte_at}
use post_quantum_uav_uav.Codec.Integers.{put_u32-injective}
use post_quantum_uav_uav.Protocol.Config.{NodeConfig}
use post_quantum_uav_uav.Protocol.Greet.{IsNode}
use post_quantum_uav_uav.Protocol.Signed.{id_a, id_b, build_m2_signed_input, build_m3_signed_input}
use post_quantum_uav_uav.Protocol.Domains.{
  field_at, wrapped-injective, init_fields, init_fields-Sized, init-size, resp_fields,
  resp_fields-Sized, resp-size, build_m2_signed_input-wrapped, build_m3_signed_input-wrapped,
}

-- Two nodes that sign or check the same input for M2 agree on the session's identifier, on who is A and
-- who is B, on A's credential version, on the index of the key, and on A's ML-KEM key.
pub build_m2_signed_input-injective :
    (config other : NodeConfig) (sid sid' : List ℕ) (version version' q q' : ℕ) (key key' : List ℕ)
    → IsNode config
    → IsNode other
    → length sid ≡ 32
    → length sid' ≡ 32
    → length key ≡ 800
    → length key' ≡ 800
    → version < 2 ^ 32
    → version' < 2 ^ 32
    → q < 2 ^ 32
    → q' < 2 ^ 32
    → build_m2_signed_input config sid version q key
      ≡ build_m2_signed_input other sid' version' q' key'
    → (sid ≡ sid')
      × (id_a config ≡ id_a other)
      × (id_b config ≡ id_b other)
      × (version ≡ version')
      × (q ≡ q')
      × (key ≡ key')
build_m2_signed_input-injective config other sid sid' version version' q q' key key' node node' hs
      hs' hk hk' hv hv' hq hq' e =
    let fields = init_fields config sid version key in
    let fields' = init_fields other sid' version' key' in
    let (mu, index) =
      wrapped-injective (joined fields) (joined fields') q q'
        (init-size config node sid hs version key hk)
        (init-size other node' sid' hs' version' key' hk') hq hq'
        (sym (build_m2_signed_input-wrapped config node sid hs version key hk q)
          ∙ e
          ∙ build_m2_signed_input-wrapped other node' sid' hs' version' key' hk' q') in
    let same =
      joined-injective fields fields' (refl, (refl, (refl, (refl, (refl, (refl, (refl, tt)))))))
        (init_fields-Sized config node sid hs version key hk)
        (init_fields-Sized other node' sid' hs' version' key' hk') mu in
    (
      ap (field_at 2) same,
      ap (field_at 3) same,
      ap (field_at 4) same,
      put_u32-injective version version' hv hv' (ap (field_at 5) same),
      index,
      ap (field_at 6) same,
    )

-- Two nodes that sign or check the same input for M3 agree on the session's identifier, on the hash of
-- M2, on who is A and who is B, on B's credential version, on the index of the key, and on the
-- ciphertext.
pub build_m3_signed_input-injective :
    (config other : NodeConfig) (sid sid' hash hash' : List ℕ) (version version' q q' : ℕ)
    (text text' : List ℕ)
    → IsNode config
    → IsNode other
    → length sid ≡ 32
    → length sid' ≡ 32
    → length hash ≡ 32
    → length hash' ≡ 32
    → length text ≡ 768
    → length text' ≡ 768
    → version < 2 ^ 32
    → version' < 2 ^ 32
    → q < 2 ^ 32
    → q' < 2 ^ 32
    → build_m3_signed_input config sid hash version q text
      ≡ build_m3_signed_input other sid' hash' version' q' text'
    → (sid ≡ sid')
      × (hash ≡ hash')
      × (id_a config ≡ id_a other)
      × (id_b config ≡ id_b other)
      × (version ≡ version')
      × (q ≡ q')
      × (text ≡ text')
build_m3_signed_input-injective config other sid sid' hash hash' version version' q q' text text'
      node node' hs hs' hh hh' ht ht' hv hv' hq hq' e =
    let fields = resp_fields config sid hash version text in
    let fields' = resp_fields other sid' hash' version' text' in
    let (mu, index) =
      wrapped-injective (joined fields) (joined fields') q q'
        (resp-size config node sid hs hash hh version text ht)
        (resp-size other node' sid' hs' hash' hh' version' text' ht') hq hq'
        (sym (build_m3_signed_input-wrapped config node sid hs hash hh version text ht q)
          ∙ e
          ∙ build_m3_signed_input-wrapped other node' sid' hs' hash' hh' version' text' ht' q') in
    let same =
      joined-injective fields fields'
        (refl, (refl, (refl, (refl, (refl, (refl, (refl, (refl, tt))))))))
        (resp_fields-Sized config node sid hs hash hh version text ht)
        (resp_fields-Sized other node' sid' hs' hash' hh' version' text' ht') mu in
    (
      ap (field_at 2) same,
      ap (field_at 3) same,
      ap (field_at 4) same,
      ap (field_at 5) same,
      put_u32-injective version version' hv hv' (ap (field_at 6) same),
      index,
      ap (field_at 7) same,
    )

-- An input that is signed for M2 is never one for M3: a signature of one cannot stand for the other.
pub build_m2_signed_input-build_m3_signed_input :
    (config other : NodeConfig) (sid sid' hash : List ℕ) (version version' q q' : ℕ)
    (key text : List ℕ)
    → IsNode config
    → IsNode other
    → length sid ≡ 32
    → length sid' ≡ 32
    → length hash ≡ 32
    → length key ≡ 800
    → length text ≡ 768
    → q < 2 ^ 32
    → q' < 2 ^ 32
    → build_m2_signed_input config sid version q key
      ≢ build_m3_signed_input other sid' hash version' q' text
build_m2_signed_input-build_m3_signed_input config other sid sid' hash version version' q q' key
      text node node' hs hs' hh hk ht hq hq' e =
    let (mu, index) =
      wrapped-injective (joined (init_fields config sid version key))
        (joined (resp_fields other sid' hash version' text)) q q'
        (init-size config node sid hs version key hk)
        (resp-size other node' sid' hs' hash hh version' text ht) hq hq'
        (sym (build_m2_signed_input-wrapped config node sid hs version key hk q)
          ∙ e
          ∙ build_m3_signed_input-wrapped other node' sid' hs' hash hh version' text ht q') in
    let tags : 0x31 ≡ 0x32 = ap (λ m. byte_at m 1) mu in omega (arith, tags)

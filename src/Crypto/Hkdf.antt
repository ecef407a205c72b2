-- ===== src/Crypto/Hkdf.antt =====
-- `hkdfSha256` of CryptoHelpers.cpp against RFC 5869.
use post_quantum_uav_uav.Prelude.{
  ℕ, zero, suc, ◌+◌, ◌-◌, ◌*◌, ◌/◌, ◌%◌, ◌≤◌, ◌<◌, ◌≡◌, refl, sym, ap, ◌∙◌, false, some, List, [],
  ◌∷◌, ◌++◌, ltb, if◌then◌else◌, length, take, arith, append-nil, append_assoc, length-append,
  take-append_ge, take-all, ltb-false, lt→ltb, length-take, inl, inr, ◌⊎◌, Bool-cases, replicate,
  ◌==◌, length-replicate,
}
use native.Mathlib.Decide.{dec_le}
use mathlib.Core.Path.{fun_ext}
use post_quantum_uav_uav.Prelude.Int.{ℤ, negsuc}
use post_quantum_uav_uav.Crypto.Sha.{hmac-IsDigest}
use post_quantum_uav_uav.Crypto.{
  WolfCrypt, IsDocumented, Result, ok, err, ◌>>=◌, hmac, hkdf_expand, hkdf_sha256, uint32_max,
  hmac_sha256,
}

Result-cases {ℓ} : {A : Type ℓ} (r : Result A) → ((a : A) × (r ≡ ok a)) ⊎ ((e : ℤ) × (r ≡ err e))
Result-cases (ok a) = inl (a, refl)
Result-cases (err e) = inr (e, refl)

module _ (w : WolfCrypt) (prk info : List ℕ) where
  -- T(i + 1) | T(i + 2) | ... | T(i + n), where `t` is T(i): each block is the HMAC of the block
  -- before it, the info string and the block's number.
  blocks : ℕ → List ℕ → ℕ → Result (List ℕ)
  blocks zero t i = ok []
  blocks (suc n) t i = do
    block ← hmac w prk (t ++ (info ++ ((i + 1) ∷ [])))
    rest ← blocks n block (i + 1)
    ok (block ++ rest)

  -- The first `m` bytes of the blocks.
  abbrev okm : ℕ → List ℕ → ℕ → List ℕ → ℕ → Result (List ℕ)
  okm n t i front m = blocks n t i >>= λ bytes. ok (front ++ take m bytes)

  -- Every successful HMAC has 32 bytes.
  abbrev Sized : Type 0
  Sized = (bytes block : List ℕ) → hmac w prk bytes ≡ ok block → length block ≡ 32

  okm_step :
      (n m : ℕ) (t : List ℕ) (i : ℕ) (front block : List ℕ)
      → hmac w prk (t ++ (info ++ ((i + 1) ∷ []))) ≡ ok block
      → length block ≡ 32
      → okm (suc n) t i front (32 + m) ≡ okm n block (i + 1) (front ++ block) m
  unfolding blocks
  okm_step n m t i front block e h = rw e (elim (Result-cases (blocks n block (i + 1))) [
    | inl (rest, r) ↦ rw r (
        ap ok (
          ap (◌++◌ front) (take-append_ge (32 + m) m block rest (omega arith))
          ∙ sym (append_assoc front block (take m rest))))
    | inr (c, r) ↦ rw r
  ])

  okm_last :
      (m : ℕ) (t : List ℕ) (i : ℕ) (front block : List ℕ)
      → hmac w prk (t ++ (info ++ ((i + 1) ∷ []))) ≡ ok block
      → okm 1 t i front m ≡ ok (front ++ take m block)
  unfolding blocks
  okm_last m t i front block e = rw e (ap (λ l. ok (front ++ take m l)) (append-nil block))

  -- The loop ends where the output is complete.
  expand_stop :
      (rounds : ℕ) (t : List ℕ) (c : ℕ) (front : List ℕ) (l : ℕ)
      → length front ≡ l
      → hkdf_expand w rounds prk info t c front l ≡ ok front
  unfolding hkdf_expand
  expand_stop zero t c front l h = refl
  expand_stop (suc rounds) t c front l h = rw (ltb-false (length front) l (omega arith))

  abbrev copied : ℕ → ℕ
  copied remaining = if ltb remaining 32 then remaining else 32

  expand_round :
      (rounds : ℕ) (t : List ℕ) (c : ℕ) (front block : List ℕ) (l : ℕ)
      → length front < l
      → hmac w prk (t ++ (info ++ (c ∷ []))) ≡ ok block
      → hkdf_expand w (suc rounds) prk info t c front l
        ≡ hkdf_expand w rounds prk info block
            ((c + 1) % 256)
            (front ++ take (copied (l - length front)) block)
            l
  unfolding hkdf_expand
  expand_round rounds t c front block l h e = rw (lt→ltb _ _ h, e)

  expand_fails :
      (rounds : ℕ) (t : List ℕ) (c : ℕ) (front : List ℕ) (l : ℕ) (code : ℤ)
      → length front < l
      → hmac w prk (t ++ (info ++ (c ∷ []))) ≡ err code
      → hkdf_expand w (suc rounds) prk info t c front l ≡ err code
  unfolding hkdf_expand
  expand_fails rounds t c front l code h e = rw (lt→ltb _ _ h, e)

  copied-le : (m : ℕ) → m ≤ 32 → copied m ≡ m
  copied-le m h = ground arith

  copied-ge : (m : ℕ) → 32 ≤ m → copied m ≡ 32
  copied-ge m h = ground arith

  -- One round with its HMAC's answer at hand, where the rounds after it are known.
  expand_more :
      (rounds n m : ℕ) (t : List ℕ) (i : ℕ) (front block : List ℕ) (l : ℕ)
      → length front + (32 + m) ≡ l
      → hmac w prk (t ++ (info ++ ((i + 1) ∷ []))) ≡ ok block
      → length block ≡ 32
      → hkdf_expand w rounds prk info block ((i + 1 + 1) % 256) (front ++ block) l
        ≡ okm n block (i + 1) (front ++ block) m
      → hkdf_expand w (suc rounds) prk info t (i + 1) front l ≡ okm (suc n) t i front (32 + m)
  expand_more rounds n m t i front block l hl e hb rest =
      expand_round rounds t (i + 1) front block l (omega arith) e
      ∙ ap (λ x. hkdf_expand w rounds prk info block ((i + 1 + 1) % 256) (front ++ x) l)
          (ap (λ (k : ℕ). take k block) (copied-ge (l - length front) (omega arith))
            ∙ take-all 32 block (omega arith))
      ∙ rest
      ∙ sym (okm_step n m t i front block e hb)

  expand_last :
      (rounds m : ℕ) (t : List ℕ) (i : ℕ) (front block : List ℕ) (l : ℕ)
      → length front + m ≡ l
      → 0 < m
      → m ≤ 32
      → hmac w prk (t ++ (info ++ ((i + 1) ∷ []))) ≡ ok block
      → length block ≡ 32
      → hkdf_expand w (suc rounds) prk info t (i + 1) front l ≡ okm 1 t i front m
  expand_last rounds m t i front block l hl hp hm e hb =
      expand_round rounds t (i + 1) front block l (omega arith) e
      ∙ ap
          (λ (k : ℕ).
            hkdf_expand w rounds prk info block ((i + 1 + 1) % 256) (front ++ take k block) l)
          (copied-le (l - length front) (omega arith) ∙ remaining)
      ∙ expand_stop rounds block _ (front ++ take m block) l
          (omega (arith, length-append front (take m block), length-take m block))
      ∙ sym (okm_last m t i front block e)
    where
      remaining : l - length front ≡ m
      remaining = omega arith

  okm_fails :
      (n m : ℕ) (t : List ℕ) (i : ℕ) (front : List ℕ) (code : ℤ)
      → hmac w prk (t ++ (info ++ ((i + 1) ∷ []))) ≡ err code
      → okm (suc n) t i front m ≡ err code
  unfolding blocks
  okm_fails n m t i front code e = rw e

  okm_none : (m : ℕ) (t : List ℕ) (i : ℕ) (front : List ℕ) → okm zero t i front m ≡ ok front
  unfolding blocks
  okm_none m t i front = ap ok (ap (◌++◌ front) (take-all m [] (omega arith)) ∙ append-nil front)

  -- The loop from any round on: `m` bytes are missing, and the last block was `t`.
  hkdf_expand-okm :
      (sized : Sized) (n rounds m : ℕ) (t : List ℕ) (i : ℕ) (front : List ℕ) (l : ℕ)
      → length front + m ≡ l
      → m ≤ rounds
      → n ≡ (m + 31) / 32
      → i + n ≤ 255
      → hkdf_expand w rounds prk info t ((i + 1) % 256) front l ≡ okm n t i front m
  hkdf_expand-okm sized zero rounds m t i front l hl hr hn hi =
      expand_stop rounds t _ front l (omega arith) ∙ sym (okm_none m t i front)
  hkdf_expand-okm sized (suc n) zero m t i front l hl hr hn hi = absurd (omega arith)
  hkdf_expand-okm sized (suc n) (suc rounds) m t i front l hl hr hn hi =
      ap (λ (c : ℕ). hkdf_expand w (suc rounds) prk info t c front l)
        (mod_small (i + 1) (omega arith))
      ∙ elim (Result-cases (hmac w prk (t ++ (info ++ ((i + 1) ∷ []))))) [
        | inr (code, e) ↦
            expand_fails rounds t (i + 1) front l code (omega arith) e
            ∙ sym (okm_fails n m t i front code e)
        | inl (block, e) ↦ elim (dec_le m 32) [
          | yes small ↦
              let one : n ≡ 0 = omega arith in
              expand_last rounds m t i front block l hl (omega arith) small e (sized _ block e)
              ∙ ap (λ (k : ℕ). okm (suc k) t i front m) (sym one)
          | no large ↦
              let split : 32 + (m - 32) ≡ m = omega arith in
              expand_more rounds n (m - 32) t i front block l (omega arith) e (sized _ block e) (
                hkdf_expand-okm sized n rounds (m - 32) block (i + 1) (front ++ block) l
                  (omega (arith, length-append front block, sized _ block e)) (omega arith)
                  (omega arith) (omega arith))
              ∙ ap (λ (k : ℕ). okm (suc n) t i front k) split
        ]
      ]
    where
      mod_small : (c : ℕ) → c ≤ 255 → c % 256 ≡ c
      mod_small c h = omega arith

  length-blocks :
      (sized : Sized) (n : ℕ) (t : List ℕ) (i : ℕ) (bytes : List ℕ)
      → blocks n t i ≡ ok bytes
      → length bytes ≡ 32 * n
  unfolding blocks
  length-blocks sized zero t i bytes e = let same : [] ≡ bytes = cc in rw (← same) refl
  length-blocks sized (suc n) t i bytes e =
      elim (Result-cases (hmac w prk (t ++ (info ++ ((i + 1) ∷ []))))) [
        | inr (code, h) ↦ cc (rw h at e)
        | inl (block, h) ↦ elim (Result-cases (blocks n block (i + 1))) [
          | inr (code, r) ↦ cc (rw (h, r) at e)
          | inl (rest, r) ↦
              let same : block ++ rest ≡ bytes = cc (rw (h, r) at e) in
              rw (← same) (
                omega (
                  arith,
                  length-append block rest,
                  sized _ block h,
                  length-blocks sized n block (i + 1) rest r,
                ))
        ]
      ]

-- A missing salt stands for 32 zero bytes.
abbrev salt_or_zeros : List ℕ → List ℕ
salt_or_zeros salt = if length salt == 0 then replicate 32 0 else salt

-- RFC 5869: extract the key from salt and input, expand it block by block, and take `l` bytes.
pub rfc5869 : (w : WolfCrypt) → List ℕ → List ℕ → List ℕ → ℕ → Result (List ℕ)
rfc5869 w ikm salt info l = do
  prk ← hmac w (salt_or_zeros salt) ikm
  bytes ← blocks w prk info ((l + 31) / 32) [] 0
  ok (take l bytes)

extract_salt :
    (w : WolfCrypt) (ikm salt : List ℕ)
    → hmac_sha256 w
        (if length salt == 0 then some (replicate 32 0) else some salt)
        (if length salt == 0 then 32 else length salt)
        (some ikm)
        (length ikm)
      ≡ hmac w (salt_or_zeros salt) ikm
unfolding hmac
extract_salt w ikm salt = elim (Bool-cases (length salt == 0)) [
  | inl empty ↦ rw empty (
      ap (λ (k : ℕ). hmac_sha256 w (some (replicate 32 0)) k (some ikm) (length ikm))
        (sym (length-replicate 32 0)))
  | inr full ↦ rw full refl
]

expand_rfc5869 :
    (w : WolfCrypt) (documented : IsDocumented w) (prk info : List ℕ) (l : ℕ)
    → length info ≤ 128
    → l ≤ 8160
    → (if ltb 128 (length info)
        then err (negsuc 3)
        else hkdf_expand w l prk (take (length info) info) [] 1 [] l)
      ≡ (blocks w prk info ((l + 31) / 32) [] 0 >>= λ bytes. ok (take l bytes))
expand_rfc5869 w documented prk info l hf hl =
    rw (ltb-false 128 (length info) hf, take-all (length info) info (omega arith))
      (hkdf_expand-okm w prk info
        (λ bytes block e. (hmac-IsDigest w documented prk bytes block e).0) ((l + 31) / 32) l l [] 0
        [] l (omega arith) (omega arith) refl (omega arith))

-- Where wolfSSL's HMACs have 32 bytes, `hkdfSha256` of input, salt and info strings that pass its
-- checks, for 1 to 8160 bytes, is HKDF of RFC 5869, errors of the HMAC included.
pub hkdf_sha256-rfc5869 :
    (w : WolfCrypt) (documented : IsDocumented w) (ikm salt info : List ℕ) (l : ℕ)
    → length ikm ≤ uint32_max
    → length salt ≤ uint32_max
    → length info ≤ 128
    → 0 < l
    → l ≤ 8160
    → hkdf_sha256 w (some ikm) (length ikm) (some salt) (length salt) (some info) (length info) l
      ≡ rfc5869 w ikm salt info l
unfolding hkdf_sha256 rfc5869
hkdf_sha256-rfc5869 w documented ikm salt info l hi hs hf hp hl =
    rw
      (
        ltb-false uint32_max (length ikm) hi,
        ltb-false uint32_max (length salt) hs,
        ltb-false uint32_max (length info) (omega arith),
        ltb-false 8160 l hl,
        positive,
        extract_salt w ikm salt,
      )
      (ap (λ k. hmac w (salt_or_zeros salt) ikm >>= k)
        (fun_ext (λ prk. expand_rfc5869 w documented prk info l hf hl)))
  where
    positive : (l == 0) ≡ false
    positive = ground arith

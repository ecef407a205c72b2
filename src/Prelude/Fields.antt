-- ===== src/Prelude/Fields.antt =====
-- Buffers that are filled with fields of known sizes, side by side.
use Prim.Native.Nat.{ℕ, ◌+◌}
use mathlib.Core.Path.{◌≡◌, refl, sym, ap, ◌∙◌}
use mathlib.Core.List.{List, [], ◌∷◌, ◌++◌, append_assoc, append-nil}
use native.Mathlib.Omega.{arith}
use post_quantum_uav_uav.Prelude.Lists.{
  length, replicate, length-replicate, All, All-append, All-replicate, length-append,
  append-left_cancel, take, drop, take-append, replicate-append,
}
use post_quantum_uav_uav.Prelude.Buffers.{write_at, write_at-zeros, drop-append_ge, slice}

-- Fields of known sizes, each written behind the one before it.
abbrev pub write_fields : ℕ → List (ℕ × List ℕ) → List ℕ → List ℕ
write_fields offset [] buffer = buffer
write_fields offset ((k, bytes) ∷ fields) buffer =
    write_fields (offset + k) fields (write_at offset bytes buffer)

abbrev pub joined : List (ℕ × List ℕ) → List ℕ
joined [] = []
joined ((k, bytes) ∷ []) = bytes
joined ((k, bytes) ∷ field ∷ fields) = bytes ++ joined (field ∷ fields)

abbrev pub Sized : List (ℕ × List ℕ) → Type 0
Sized = All (λ field. length field.1 ≡ field.0)

abbrev pub total : List (ℕ × List ℕ) → ℕ
total [] = 0
total ((k, bytes) ∷ fields) = k + total fields

pub joined-step :
    (k : ℕ) (bytes : List ℕ) (fields : List (ℕ × List ℕ))
    → bytes ++ joined fields ≡ joined ((k, bytes) ∷ fields)
joined-step k bytes [] = append-nil bytes
joined-step k bytes (field ∷ fields) = refl

write_fields-joined :
    (fields : List (ℕ × List ℕ)) (offset n : ℕ) (front : List ℕ)
    → Sized fields
    → length front ≡ offset
    → total fields ≡ n
    → write_fields offset fields (front ++ replicate n 0) ≡ front ++ joined fields
unfolding replicate
write_fields-joined [] offset n front sized hf hn = ap (λ (k : ℕ). front ++ replicate k 0) (sym hn)
write_fields-joined ((k, bytes) ∷ fields) offset n front (size, sized) hf hn =
    ap (write_fields (offset + k) fields)
      (write_at-zeros offset n (total fields) front bytes hf (omega arith))
    ∙ write_fields-joined fields (offset + k) (total fields) (front ++ bytes) sized
        (omega (arith, length-append front bytes)) refl
    ∙ append_assoc front bytes (joined fields)
    ∙ ap (◌++◌ front) (joined-step k bytes fields)

-- A buffer of zeros that is filled with fields holds them side by side.
pub write_fields-zeros :
    (fields : List (ℕ × List ℕ)) (n : ℕ)
    → Sized fields
    → total fields ≡ n
    → write_fields 0 fields (replicate n 0) ≡ joined fields
write_fields-zeros fields n sized hn = write_fields-joined fields 0 n [] sized refl hn

pub length-joined :
    (fields : List (ℕ × List ℕ)) → Sized fields → length (joined fields) ≡ total fields
length-joined [] sized = refl
length-joined ((k, bytes) ∷ []) (size, sized) = omega arith
length-joined ((k, bytes) ∷ field ∷ fields) (size, sized) =
    omega
      (arith, length-append bytes (joined (field ∷ fields)), length-joined (field ∷ fields) sized)

-- Two lists of fields of the same sizes.
abbrev SameSizes : List (ℕ × List ℕ) → List (ℕ × List ℕ) → Type 0
SameSizes [] [] = Unit {0}
SameSizes [] (g ∷ gs) = ⊥
SameSizes (f ∷ fs) [] = ⊥
SameSizes (f ∷ fs) (g ∷ gs) = (f.0 ≡ g.0) × SameSizes fs gs

-- What is written side by side can be told apart where the sizes are fixed.
pub joined-injective :
    (fs gs : List (ℕ × List ℕ))
    → SameSizes fs gs
    → Sized fs
    → Sized gs
    → joined fs ≡ joined gs
    → fs ≡ gs
joined-injective [] [] same sf sg e = refl
joined-injective [] (g ∷ gs) same sf sg e = absurd same
joined-injective (f ∷ fs) [] same sf sg e = absurd same
joined-injective ((k, f) ∷ []) ((l, g) ∷ []) same sf sg e = λ i. (same.0 i, e i) ∷ []
joined-injective ((k, f) ∷ []) ((l, g) ∷ g' ∷ gs) same sf sg e = absurd same.1
joined-injective ((k, f) ∷ f' ∷ fs) ((l, g) ∷ []) same sf sg e = absurd same.1
joined-injective ((k, f) ∷ f' ∷ fs) ((l, g) ∷ g' ∷ gs) (kl, same) (sf, sfs) (sg, sgs) e =
    let (here, there) =
      append-left_cancel f g (joined (f' ∷ fs)) (joined (g' ∷ gs)) (omega arith) e in
    let rest = joined-injective (f' ∷ fs) (g' ∷ gs) same sfs sgs there in
    λ i. (kl i, here i) ∷ rest i

-- What stands behind the first fields.
pub joined-drop :
    (before after : List (ℕ × List ℕ))
    → Sized before
    → drop (total before) (joined (before ++ after)) ≡ joined after
joined-drop [] after sized = refl
joined-drop ((k, bytes) ∷ before) after (size, sized) =
    ap (drop (k + total before)) (sym (joined-step k bytes (before ++ after)))
    ∙ drop-append_ge k (total before) bytes (joined (before ++ after)) size
    ∙ joined-drop before after sized

joined-take :
    (k : ℕ) (bytes : List ℕ) (after : List (ℕ × List ℕ))
    → length bytes ≡ k
    → take k (joined ((k, bytes) ∷ after)) ≡ bytes
joined-take k bytes after size =
    ap (take k) (sym (joined-step k bytes after)) ∙ take-append k bytes (joined after) size

-- The field behind the first fields.
pub joined-slice :
    (before after : List (ℕ × List ℕ)) (k : ℕ) (bytes : List ℕ)
    → Sized before
    → length bytes ≡ k
    → slice (total before) k (joined (before ++ ((k, bytes) ∷ after))) ≡ bytes
joined-slice before after k bytes sized size =
    ap (take k) (joined-drop before ((k, bytes) ∷ after) sized) ∙ joined-take k bytes after size

-- `memcpy(buffer + offset, bytes, length)` for each pair of offset and bytes, in turn.
abbrev pub write_all : List (ℕ × List ℕ) → List ℕ → List ℕ
write_all [] buffer = buffer
write_all ((offset, bytes) ∷ fields) buffer = write_all fields (write_at offset bytes buffer)

-- Fields with the gap before each: where they are written, and what stands in a zeroed buffer then.
abbrev pub places : ℕ → List (ℕ × ℕ × List ℕ) → List (ℕ × List ℕ)
places offset [] = []
places offset ((gap, k, bytes) ∷ fields) = (offset + gap, bytes) ∷ places (offset + gap + k) fields

abbrev pub padded : List (ℕ × ℕ × List ℕ) → List (ℕ × List ℕ)
padded [] = []
padded ((gap, k, bytes) ∷ fields) = (gap, replicate gap 0) ∷ (k, bytes) ∷ padded fields

write_all-padded :
    (fields : List (ℕ × ℕ × List ℕ)) (offset n rest : ℕ) (front : List ℕ)
    → Sized (padded fields)
    → length front ≡ offset
    → total (padded fields) + rest ≡ n
    → write_all (places offset fields) (front ++ replicate n 0)
      ≡ front ++ (joined (padded fields) ++ replicate rest 0)
write_all-padded [] offset n rest front sized hf hn =
    ap (λ (k : ℕ). front ++ replicate k 0) (omega arith)
write_all-padded ((gap, k, bytes) ∷ fields) offset n rest front (gap_size, (size, sized)) hf hn =
    ap (λ t. write_all (places (offset + gap + k) fields) (write_at (offset + gap) bytes t))
      (ap (λ (m : ℕ). front ++ replicate m 0) (omega arith)
        ∙ ap (◌++◌ front) (replicate-append gap (k + total (padded fields) + rest) 0)
        ∙ sym (append_assoc front zeros (replicate (k + total (padded fields) + rest) 0)))
    ∙ ap (write_all (places (offset + gap + k) fields)) (
        write_at-zeros (offset + gap) (k + total (padded fields) + rest)
          (total (padded fields) + rest) (front ++ zeros) bytes
          (omega (arith, length-append front zeros)) (omega arith))
    ∙ write_all-padded fields (offset + gap + k) (total (padded fields) + rest) rest
        ((front ++ zeros) ++ bytes) sized
        (omega (arith, length-append front zeros, length-append (front ++ zeros) bytes)) refl
    ∙ regroup (joined (padded fields)) (replicate rest 0)
    ∙ ap (λ t. front ++ (t ++ replicate rest 0))
        (ap (◌++◌ zeros) (joined-step k bytes (padded fields)))
  where
    zeros : List ℕ
    zeros = replicate {A = ℕ} gap 0

    regroup :
        (later tail : List ℕ)
        → ((front ++ zeros) ++ bytes) ++ (later ++ tail)
          ≡ front ++ ((zeros ++ (bytes ++ later)) ++ tail)
    regroup later tail = simp append_assoc

-- The bytes of a zeroed buffer of `n + rest` bytes after all writes.
pub write_all-zeros :
    (fields : List (ℕ × ℕ × List ℕ)) (n rest : ℕ)
    → Sized (padded fields)
    → total (padded fields) + rest ≡ n
    → write_all (places 0 fields) (replicate n 0) ≡ joined (padded fields) ++ replicate rest 0
write_all-zeros fields n rest sized hn = write_all-padded fields 0 n rest [] sized refl hn

-- One more field at the end.
pub joined-last :
    (fields : List (ℕ × List ℕ)) (k : ℕ) (bytes : List ℕ)
    → joined fields ++ bytes ≡ joined (fields ++ ((k, bytes) ∷ []))
joined-last [] k bytes = refl
joined-last ((l, first) ∷ []) k bytes = refl
joined-last ((l, first) ∷ field ∷ fields) k bytes =
    append_assoc first (joined (field ∷ fields)) bytes
    ∙ ap (◌++◌ first) (joined-last (field ∷ fields) k bytes)

pub All-joined {κ} :
    (P : ℕ → Type κ) (fields : List (ℕ × List ℕ))
    → All (λ field. All P field.1) fields
    → All P (joined fields)
All-joined P [] h = tt
All-joined P ((k, bytes) ∷ []) h = h.0
All-joined P ((k, bytes) ∷ field ∷ fields) (here, h) =
    All-append P bytes (joined (field ∷ fields)) here (All-joined P (field ∷ fields) h)

pub Sized-append :
    (fields more : List (ℕ × List ℕ)) → Sized fields → Sized more → Sized (fields ++ more)
Sized-append fields more = All-append (λ field. length field.1 ≡ field.0) fields more

pub total-append :
    (fields more : List (ℕ × List ℕ)) → total (fields ++ more) ≡ total fields + total more
total-append [] more = omega arith
total-append ((k, bytes) ∷ fields) more = omega (arith, total-append fields more)

pub Sized-padded :
    (fields : List (ℕ × ℕ × List ℕ))
    → All (λ field. length field.2 ≡ field.1) fields
    → Sized (padded fields)
Sized-padded [] h = tt
Sized-padded ((gap, k, bytes) ∷ fields) (size, h) =
    (length-replicate {A = ℕ} gap 0, (size, Sized-padded fields h))

pub All-padded {κ} :
    (P : ℕ → Type κ) (fields : List (ℕ × ℕ × List ℕ))
    → P 0
    → All (λ field. All P field.2) fields
    → All (λ field. All P field.1) (padded fields)
All-padded P [] zero_fits h = tt
All-padded P ((gap, k, bytes) ∷ fields) zero_fits (here, h) =
    (All-replicate P gap 0 zero_fits, (here, All-padded P fields zero_fits h))

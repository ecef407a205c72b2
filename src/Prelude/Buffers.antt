-- ===== src/Prelude/Buffers.antt =====
-- Byte arrays: the source's `p + offset` with a length is `slice`, its `memcpy` is `write_at`.
use Prim.Native.Nat.{ℕ, zero, suc, ◌+◌, ◌-◌, ◌≤◌}
use mathlib.Core.Path.{◌≡◌, refl, sym, ap, ◌∙◌}
use mathlib.Core.List.{List, [], ◌∷◌, ◌++◌, append_assoc, append-nil}
use native.Mathlib.Omega.{arith}
use post_quantum_uav_uav.Prelude.Lists.{
  length, get_or, take, drop, replicate, length-append, length-replicate, replicate-append,
  take-append, drop-append, length-take, length-drop, take-append-drop, take-append_ge,
  take-append_le, drop-drop, All, All-append, All-drop,
}

-- `length` bytes from `offset` on.
abbrev pub slice : ℕ → ℕ → List ℕ → List ℕ
slice offset count bytes = take count (drop offset bytes)

-- `memcpy(buffer + offset, bytes, length)`; the callers write inside the buffer.
pub write_at : ℕ → List ℕ → List ℕ → List ℕ
write_at offset bytes buffer = take offset buffer ++ (bytes ++ drop (offset + length bytes) buffer)

pub write_at-parts :
    (offset : ℕ) (front bytes old rest : List ℕ)
    → length front ≡ offset
    → length old ≡ length bytes
    → write_at offset bytes (front ++ (old ++ rest)) ≡ front ++ (bytes ++ rest)
unfolding write_at
write_at-parts offset front bytes old rest hf ho = rw (take-append offset front (old ++ rest) hf) (
    ap (λ t. front ++ (bytes ++ t))
      (ap (λ t. drop (offset + length bytes) t) (sym (append_assoc front old rest))
        ∙ drop-append (offset + length bytes) (front ++ old) rest
            (omega (arith, length-append front old))))

-- A write at the end of what a zeroed buffer holds so far.
pub write_at-zeros :
    (offset n m : ℕ) (front bytes : List ℕ)
    → length front ≡ offset
    → length bytes + m ≡ n
    → write_at offset bytes (front ++ replicate n 0) ≡ (front ++ bytes) ++ replicate m 0
write_at-zeros offset n m front bytes hf hn =
    ap (λ t. write_at offset bytes (front ++ t)) split
    ∙ write_at-parts offset front bytes (replicate {A = ℕ} (length bytes) 0) (replicate m 0) hf
        (length-replicate {A = ℕ} (length bytes) 0)
    ∙ sym (append_assoc front bytes (replicate m 0))
  where
    split : replicate n 0 ≡ replicate {A = ℕ} (length bytes) 0 ++ replicate m 0
    split = ap (λ (k : ℕ). replicate {A = ℕ} k 0) (sym hn) ∙ replicate-append (length bytes) m 0

-- The field between two known parts.
pub slice-parts :
    (offset count : ℕ) (front field rest : List ℕ)
    → length front ≡ offset
    → length field ≡ count
    → slice offset count (front ++ (field ++ rest)) ≡ field
slice-parts offset count front field rest hf hc =
    rw (drop-append offset front (field ++ rest) hf) (take-append count field rest hc)

pub length-slice :
    (offset count : ℕ) (bytes : List ℕ)
    → offset + count ≤ length bytes
    → length (slice offset count bytes) ≡ count
length-slice offset count bytes h =
    omega (arith, length-take count (drop offset bytes), length-drop offset bytes)

pub length-write_at :
    (offset : ℕ) (bytes buffer : List ℕ)
    → offset + length bytes ≤ length buffer
    → length (write_at offset bytes buffer) ≡ length buffer
unfolding write_at
length-write_at offset bytes buffer h = omega (
  arith,
  length-append (take offset buffer) (bytes ++ drop (offset + length bytes) buffer),
  length-append bytes (drop (offset + length bytes) buffer),
  length-take offset buffer,
  length-drop (offset + length bytes) buffer,
)

-- A write behind the first part of a buffer.
pub write_at-append :
    (n offset : ℕ) (bytes front buffer : List ℕ)
    → length front ≡ n
    → write_at (n + offset) bytes (front ++ buffer) ≡ front ++ write_at offset bytes buffer
unfolding write_at
write_at-append n offset bytes front buffer h =
    rw (take-append_ge (n + offset) offset front buffer (omega arith), behind)
      (append_assoc front (take offset buffer) (bytes ++ drop (offset + length bytes) buffer))
  where
    behind :
        drop (n + offset + length bytes) (front ++ buffer) ≡ drop (offset + length bytes) buffer
    behind =
        ap (λ (k : ℕ). drop k (front ++ buffer)) (omega arith)
        ∙ sym (drop-drop (offset + length bytes) n (front ++ buffer))
        ∙ ap (λ t. drop (offset + length bytes) t) (drop-append n front buffer h)

pub drop-append_ge :
    (n m : ℕ) (front rest : List ℕ) → length front ≡ n → drop (n + m) (front ++ rest) ≡ drop m rest
drop-append_ge n m front rest h =
    sym (drop-drop m n (front ++ rest)) ∙ ap (λ t. drop m t) (drop-append n front rest h)

-- A write changes nothing behind its end.
pub drop-write_at :
    (c offset : ℕ) (bytes buffer : List ℕ)
    → offset + length bytes ≤ c
    → c ≤ length buffer
    → drop c (write_at offset bytes buffer) ≡ drop c buffer
unfolding write_at
drop-write_at c offset bytes buffer h hc =
    ap (λ (k : ℕ). drop k (write_at offset bytes buffer)) split
    ∙ drop-append_ge offset (length bytes + beyond) (take offset buffer)
        (bytes ++ drop (offset + length bytes) buffer) (omega (arith, length-take offset buffer))
    ∙ drop-append_ge (length bytes) beyond bytes (drop (offset + length bytes) buffer) refl
    ∙ drop-drop beyond (offset + length bytes) buffer
    ∙ ap (λ (k : ℕ). drop k buffer) (omega arith)
  where
    beyond : ℕ
    beyond = c - (offset + length bytes)

    split : c ≡ offset + (length bytes + beyond)
    split = omega arith

pub write_at_nothing : (buffer : List ℕ) → write_at 0 [] buffer ≡ buffer
unfolding write_at
write_at_nothing buffer = refl

-- The bytes from `offset` on begin with a field of `k` bytes.
pub slice-append-drop :
    (offset k : ℕ) (bytes : List ℕ)
    → slice offset k bytes ++ drop (offset + k) bytes ≡ drop offset bytes
slice-append-drop offset k bytes =
    ap (◌++◌ (slice offset k bytes)) (sym (drop-drop k offset bytes))
    ∙ take-append-drop k (drop offset bytes)

-- A write at the front.
pub All-write_at_front {κ} :
    (P : ℕ → Type κ) (bytes buffer : List ℕ)
    → All P bytes
    → All P buffer
    → All P (write_at 0 bytes buffer)
unfolding write_at
All-write_at_front P bytes buffer h hb =
    All-append P bytes (drop (0 + length bytes) buffer) h (All-drop P (0 + length bytes) buffer hb)

pub take-write_at_front :
    (bytes buffer : List ℕ) → take (length bytes) (write_at 0 bytes buffer) ≡ bytes
unfolding write_at
take-write_at_front bytes buffer = take-append (length bytes) bytes _ refl

-- A field that lies within the first part.
pub slice-append :
    (offset count : ℕ) (front rest : List ℕ)
    → offset + count ≤ length front
    → slice offset count (front ++ rest) ≡ slice offset count front
slice-append zero count front rest h = take-append_le count front rest (omega arith)
slice-append (suc offset) count [] rest h = absurd (omega arith)
slice-append (suc offset) count (b ∷ front) rest h =
    slice-append offset count front rest (omega arith)

-- A write that fills the zeros that are left.
pub write_at-last :
    (offset n : ℕ) (front bytes : List ℕ)
    → length front ≡ offset
    → length bytes ≡ n
    → write_at offset bytes (front ++ replicate n 0) ≡ front ++ bytes
unfolding replicate
write_at-last offset n front bytes hf hn =
    write_at-zeros offset n 0 front bytes hf (omega arith) ∙ append-nil (front ++ bytes)

-- A field of one byte.
pub get_or-slice : (i : ℕ) (bytes : List ℕ) → get_or (slice i 1 bytes) 0 0 ≡ get_or bytes i 0
get_or-slice zero [] = refl
get_or-slice zero (b ∷ bytes) = refl
get_or-slice (suc i) [] = refl
get_or-slice (suc i) (b ∷ bytes) = get_or-slice i bytes

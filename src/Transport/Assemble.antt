-- ===== src/Transport/Assemble.antt =====
-- `receiveMessage` of FragmentedUdp.cpp: its state once some fragments of one message are in.
use post_quantum_uav_uav.Prelude.{
  ℕ, zero, suc, ◌+◌, ◌*◌, ◌/◌, ◌≤◌, ◌<◌, ◌≡◌, refl, sym, ap, ap₂, ◌∙◌, Bool, true, false, List, [],
  ◌∷◌, ◌++◌, if◌then◌else◌, length, slice, take, drop, min, get_or, set, write_at, arith,
  write_at-parts, length-take, length-drop, take-append-drop, drop-drop, write_at-append, All,
  append_assoc,
}
use post_quantum_uav_uav.Transport.Fragment.{payload_length_of}

-- How many bytes the first fragment of what is left has.
abbrev pub block : List ℕ → ℕ
block message = min 1000 (length message)

-- The output buffer with the fragments that are in, `got`, over what it held.
abbrev pub mixed : List Bool → List ℕ → List ℕ → List ℕ
mixed [] message output = output
mixed (here ∷ got) message output =
    take (block message) (if here then message else output)
    ++ mixed got (drop (block message) message) (drop (block message) output)

abbrev pub completed_of : List Bool → ℕ
completed_of [] = 0
completed_of (here ∷ got) = (if here then 1 else 0) + completed_of got

abbrev pub framed_of : List Bool → List ℕ → ℕ
framed_of [] message = 0
framed_of (here ∷ got) message =
    (if here then 14 + block message else 0) + framed_of got (drop (block message) message)

-- Enough blocks to cover the message, and no empty one.
abbrev pub Covers : List Bool → List ℕ → Type 0
Covers got message = length got ≡ (length message + 999) / 1000

pub framed_of-le : (got : List Bool) (message : List ℕ) → framed_of got message ≤ length got * 1014
framed_of-le [] message = omega arith
framed_of-le (true ∷ got) message = omega (arith, framed_of-le got (drop (block message) message))
framed_of-le (false ∷ got) message = omega (arith, framed_of-le got (drop (block message) message))

pub completed_of-le : (got : List Bool) → completed_of got ≤ length got
completed_of-le [] = omega arith
completed_of-le (true ∷ got) = omega (arith, completed_of-le got)
completed_of-le (false ∷ got) = omega (arith, completed_of-le got)

pub completed_of-set :
    (got : List Bool) (i : ℕ)
    → i < length got
    → get_or got i false ≡ false
    → completed_of (set got i true) ≡ completed_of got + 1
completed_of-set [] i h e = absurd (omega arith)
completed_of-set (true ∷ got) zero h e = cc
completed_of-set (false ∷ got) zero h e = omega arith
completed_of-set (here ∷ got) (suc i) h e = omega (arith, completed_of-set got i (omega arith) e)

Covers-drop :
    (here : Bool) (got : List Bool) (message : List ℕ)
    → Covers (here ∷ got) message
    → Covers got (drop (block message) message)
Covers-drop here got message h = omega (arith, length-drop (block message) message)

pub framed_of-set :
    (got : List Bool) (message : List ℕ) (i : ℕ)
    → Covers got message
    → i < length got
    → get_or got i false ≡ false
    → framed_of (set got i true) message
      ≡ framed_of got message + (14 + payload_length_of (length message) i)
framed_of-set [] message i c h e = absurd (omega arith)
framed_of-set (true ∷ got) message zero c h e = cc
framed_of-set (false ∷ got) message zero c h e = omega arith
framed_of-set (here ∷ got) message (suc i) c h e = omega (
  arith,
  framed_of-set got (drop (block message) message) i (Covers-drop here got message c) (omega arith)
      e,
  length-drop (block message) message,
)

mixed_first :
    (got : List Bool) (here : Bool) (message output : List ℕ)
    → length message ≤ length output
    → write_at 0 (take (block message) message) (mixed (here ∷ got) message output)
      ≡ mixed (true ∷ got) message output
mixed_first got here message output h =
    write_at-parts 0 [] (take (block message) message)
      (take (block message) (if here then message else output))
      (mixed got (drop (block message) message) (drop (block message) output)) refl (same here)
  where
    same :
        (b : Bool)
        → length (take (block message) (if b then message else output))
          ≡ length (take (block message) message)
    same true = refl
    same false =
        omega (arith, length-take (block message) message, length-take (block message) output)

-- Storing a fragment is a write of its bytes at its place.
pub mixed-set :
    (got : List Bool) (message output : List ℕ) (i : ℕ)
    → Covers got message
    → length message ≤ length output
    → i < length got
    → write_at
        (i * 1000)
        (slice (i * 1000) (payload_length_of (length message) i) message)
        (mixed got message output)
      ≡ mixed (set got i true) message output
mixed-set [] message output i c h hi = absurd (omega arith)
mixed-set (here ∷ got) message output zero c h hi =
    ap (λ (k : ℕ). write_at 0 (take k message) (mixed (here ∷ got) message output)) (omega arith)
    ∙ mixed_first got here message output h
mixed-set (here ∷ got) message output (suc i) c h hi =
    ap₂ (λ (o : ℕ) bytes. write_at o bytes (mixed (here ∷ got) message output)) place payload
    ∙ write_at-append (block message) (i * 1000) (slice (i * 1000) size rest)
        (take (block message) (if here then message else output))
        (mixed got rest (drop (block message) output)) (length-here here)
    ∙ ap (◌++◌ (take (block message) (if here then message else output))) (
        mixed-set got rest (drop (block message) output) i (Covers-drop here got message c)
          (omega (arith, length-drop (block message) message, length-drop (block message) output))
          (omega arith))
  where
    rest : List ℕ
    rest = drop (block message) message

    size : ℕ
    size = payload_length_of (length rest) i

    place : suc i * 1000 ≡ block message + i * 1000
    place = omega arith

    payload :
        slice (suc i * 1000) (payload_length_of (length message) (suc i)) message
        ≡ slice (i * 1000) size rest
    payload =
        ap₂ (λ (o k : ℕ). slice o k message) place
          (omega (arith, length-drop (block message) message))
        ∙ ap (λ t. take size t) (sym (drop-drop (i * 1000) (block message) message))

    length-here :
        (b : Bool) → length (take (block message) (if b then message else output)) ≡ block message
    length-here true = omega (arith, length-take (block message) message)
    length-here false = omega (arith, length-take (block message) output)

pub mixed_none :
    (got : List Bool) (message output : List ℕ)
    → completed_of got ≡ 0
    → mixed got message output ≡ output
mixed_none [] message output h = refl
mixed_none (true ∷ got) message output h = absurd (omega arith)
mixed_none (false ∷ got) message output h =
    ap (◌++◌ (take (block message) output))
      (mixed_none got (drop (block message) message) (drop (block message) output) (omega arith))
    ∙ take-append-drop (block message) output

pub mixed_all :
    (got : List Bool) (message output : List ℕ)
    → Covers got message
    → completed_of got ≡ length got
    → mixed got message output ≡ message ++ drop (length message) output
mixed_all [] [] output c h = refl
mixed_all [] (b ∷ message) output c h = absurd (omega arith)
mixed_all (false ∷ got) message output c h = absurd (omega (arith, completed_of-le got))
mixed_all (true ∷ got) message output c h =
    ap (◌++◌ (take (block message) message)) (
      mixed_all got rest (drop (block message) output) (Covers-drop true got message c)
        (omega arith)
      ∙ ap (◌++◌ rest) (
          drop-drop (length rest) (block message) output
          ∙ ap (λ (k : ℕ). drop k output) (omega (arith, length-drop (block message) message))))
    ∙ sym (append_assoc (take (block message) message) rest (drop (length message) output))
    ∙ ap (λ t. t ++ drop (length message) output) (take-append-drop (block message) message)
  where
    rest : List ℕ
    rest = drop (block message) message

pub completed_of_all :
    (got : List Bool)
    → ((i : ℕ) → i < length got → get_or got i false ≡ true)
    → completed_of got ≡ length got
completed_of_all [] h = refl
completed_of_all (true ∷ got) h =
    omega (arith, completed_of_all got (λ i hi. h (suc i) (omega arith)))
completed_of_all (false ∷ got) h = cc (h 0 (omega arith))

pub framed_of_all :
    (got : List Bool) (message : List ℕ)
    → Covers got message
    → completed_of got ≡ length got
    → framed_of got message ≡ length message + 14 * length got
framed_of_all [] [] c h = refl
framed_of_all [] (b ∷ message) c h = absurd (omega arith)
framed_of_all (false ∷ got) message c h = absurd (omega (arith, completed_of-le got))
framed_of_all (true ∷ got) message c h = omega (
  arith,
  framed_of_all got (drop (block message) message) (Covers-drop true got message c) (omega arith),
  length-drop (block message) message,
)

pub completed_of-false : (got : List Bool) → All (λ here. here ≡ false) got → completed_of got ≡ 0
completed_of-false [] h = refl
completed_of-false (true ∷ got) h = cc (h.0)
completed_of-false (false ∷ got) h = omega (arith, completed_of-false got h.1)

pub framed_of_none :
    (got : List Bool) (message : List ℕ) → completed_of got ≡ 0 → framed_of got message ≡ 0
framed_of_none [] message h = refl
framed_of_none (true ∷ got) message h = absurd (omega arith)
framed_of_none (false ∷ got) message h =
    omega (arith, framed_of_none got (drop (block message) message) (omega arith))

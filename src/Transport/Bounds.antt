-- ===== src/Transport/Bounds.antt =====
-- FragmentedUdp.cpp: what `receiveMessage` keeps whatever the socket brings.
use post_quantum_uav_uav.Prelude.{
  ℕ, ◌+◌, ◌*◌, ◌≤◌, ◌≡◌, refl, sym, ◌∙◌, Bool, true, false, not, ◌&&◌, Option, none, some, List, [],
  ◌∷◌, ltb, ◌==◌, length, drop, take, get_or, arith, inl, inr, Bool-cases, subst, length-write_at,
  drop-write_at, length-take, &&_iff, if-cases,
}
use post_quantum_uav_uav.Transport.Fragment.{Fragment, Arrival, read_one_datagram}
use post_quantum_uav_uav.Transport.Receive.{
  Assembly, Request, start, activate, store, belongs, handle, handle_fragment, round, is_wanted,
  is_expected, receive_loop, receive_message, ReceivedPacket,
}

ltb-false→le : (a b : ℕ) → ltb a b ≡ false → b ≤ a
ltb-false→le a b h = ground arith

-- The caller's buffer keeps its length and what lies beyond its capacity, and a message in progress
-- fits the capacity and is one that the caller asks for.
record IsBounded (request : Request) (output : List ℕ) (a : Assembly) : Type 0 where
  size : length a.output ≡ length output
  beyond : drop request.output_capacity a.output ≡ drop request.output_capacity output
  within : a.active ≡ true → a.active_length ≤ request.output_capacity
  wanted : a.active ≡ true → is_wanted request a.active_type a.active_session ≡ true

-- A packet that is returned has been asked for and fits the caller's capacity.
abbrev pub IsFit : Request → Option ReceivedPacket → Type 0
IsFit request none = Unit {0}
IsFit request (some p) =
    (p.length ≤ request.output_capacity) × (is_wanted request p.type p.session ≡ true)

module _ (request : Request) (output : List ℕ)
    (room : request.output_capacity ≤ length output) where
  store-IsBounded :
      (a : Assembly) (f : Fragment)
      → IsBounded request output a
      → a.active ≡ true
      → f.fragment_index * 1000 + f.payload_length ≤ a.active_length
      → IsBounded request output (store a f)
  unfolding store
  store-IsBounded a f bounded active fits =
      elim (Bool-cases (get_or a.received_fragments f.fragment_index false)) [
        | inl old ↦ rw old bounded
        | inr new ↦ rw new record {
          size =
              length-write_at _ bytes a.output (omega (arith, inside, bounded.size)) ∙ bounded.size;
          beyond =
              drop-write_at request.output_capacity _ bytes a.output inside
                (omega (arith, bounded.size))
              ∙ bounded.beyond;
          within = bounded.within;
          wanted = bounded.wanted;
        }
      ]
    where
      bytes : List ℕ
      bytes = take f.payload_length f.payload

      inside : f.fragment_index * 1000 + length bytes ≤ request.output_capacity
      inside = omega (arith, length-take f.payload_length f.payload, bounded.within active)

  belongs-fits :
      (a : Assembly) (f : Fragment)
      → belongs a f ≡ true
      → f.fragment_index * 1000 + f.payload_length ≤ a.active_length
  belongs-fits a f h = ground arith

  activate-IsBounded :
      (a : Assembly) (f : Fragment)
      → IsBounded request output a
      → is_expected request f ≡ true
      → (not a.active && ltb request.output_capacity f.total_length) ≡ false
      → IsBounded request output (activate a f) × ((activate a f).active ≡ true)
  unfolding activate
  activate-IsBounded a f bounded expected fits = elim (Bool-cases a.active) [
    | inl on ↦
        subst (λ b. IsBounded request output b × (b.active ≡ true)) (sym (kept on)) (bounded, on)
    | inr off ↦ rw off (
      record {
        size = bounded.size;
        beyond = bounded.beyond;
        within = λ e. ltb-false→le request.output_capacity f.total_length (cc (rw off at fits));
        wanted = λ e. expected;
      },
      refl,
    )
  ]
    where
      kept : a.active ≡ true → activate a f ≡ a
      kept on = rw on refl

  store-active : (a : Assembly) (f : Fragment) → a.active ≡ true → (store a f).active ≡ true
  unfolding store
  store-active a f active =
      if-cases (λ (b : Assembly). b.active ≡ true)
        (get_or a.received_fragments f.fragment_index false) a _ (λ old. active) (λ new. active)

  -- What a round of the loop leaves.
  abbrev Kept : Assembly × Bool → Type 0
  Kept result = IsBounded request output result.0 × (result.1 ≡ true → result.0.active ≡ true)

  handle_fragment-Kept :
      (a : Assembly) (f : Fragment)
      → IsBounded request output a
      → Kept (handle_fragment request a f)
  unfolding handle_fragment
  handle_fragment-Kept a f bounded =
      if-cases Kept (not (is_expected request f)) _ _ (λ h. (bounded, λ e. cc))
        (λ expected.
          if-cases Kept (not a.active && ltb request.output_capacity f.total_length) _ _
            (λ h. (bounded, λ e. cc))
            (λ fits.
              let (next, active) = activate-IsBounded a f bounded (not_false _ expected) fits in
              if-cases Kept (belongs (activate a f) f) _ _
                (λ h. (
                  store-IsBounded (activate a f) f next active (belongs-fits (activate a f) f h),
                  λ e. store-active (activate a f) f active,
                ))
                (λ h. (next, λ e. cc))))
    where
      not_false : (b : Bool) → not b ≡ false → b ≡ true
      not_false true h = refl
      not_false false h = cc

  handle-Kept :
      (a : Assembly) (read : Option Fragment)
      → IsBounded request output a
      → Kept (handle request a read)
  handle-Kept a none bounded = (bounded, λ e. cc)
  handle-Kept a (some f) bounded = handle_fragment-Kept a f bounded

  abbrev IsSafe : Option ReceivedPacket × Assembly → Type 0
  IsSafe result = IsFit request result.0 × IsBounded request output result.1

  receive_loop-IsSafe :
      (arrivals : List Arrival) (a : Assembly)
      → IsBounded request output a
      → IsSafe (receive_loop request a arrivals)
  unfolding receive_loop
  receive_loop-IsSafe [] a bounded = (tt, bounded)
  receive_loop-IsSafe (arrival ∷ arrivals) a bounded =
      let kept = handle-Kept a (read_one_datagram arrival) bounded in
      let next = (round request a arrival).0 in
      if-cases IsSafe ((round request a arrival).1 && (next.completed == next.active_count)) _ _
        (λ done.
          let active = kept.1 ((&&_iff _ _).0 done).0 in
          ((kept.0.within active, kept.0.wanted active), kept.0))
        (λ go_on. receive_loop-IsSafe arrivals next kept.0)

-- Whatever the socket brings, `receiveMessage` keeps the length of a buffer that is as long as the
-- capacity given, writes nothing beyond that capacity, and returns only packets that have the type and
-- session asked for and a length within it.
pub receive_message-safe :
    (request : Request) (output : List ℕ) (arrivals : List Arrival)
    → request.output_capacity ≤ length output
    → (after : List ℕ) × ((receive_message request (some output) arrivals).1 ≡ some after)
      × (length after ≡ length output)
      × (drop request.output_capacity after ≡ drop request.output_capacity output)
      × IsFit request (receive_message request (some output) arrivals).0
unfolding receive_message
receive_message-safe request output arrivals room =
    let result = receive_loop request (start output) arrivals in
    let safe =
      receive_loop-IsSafe request output room arrivals (start output)
        record { size = refl; beyond = refl; within = λ e. cc; wanted = λ e. cc } in
    (result.1.output, refl, safe.1.size, safe.1.beyond, safe.0)

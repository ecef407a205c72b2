-- ===== src/Protocol/Reserve.antt =====
-- `reserveQ` over a node's life: no index twice, every index of the range once, and a read that fails.
use post_quantum_uav_uav.Prelude.{
  ℕ, zero, suc, ◌+◌, ◌%◌, ◌^◌, ◌≤◌, ◌<◌, ◌≡◌, refl, ap, sym, subst, true, false, Option, none, some,
  List, [], ◌∷◌, All, arith, if-cases, ◌++◌,
}
use post_quantum_uav_uav.Protocol.Config.{NodeConfig}
use post_quantum_uav_uav.Protocol.Counter.{
  Nvs, get_next_q, PutAnswer, works, stored, failed, is_unused, initialize_persistent_counter,
  reserve_q, Event, reserve, lose_power, restart, happen, add_reserved, reserved,
}

-- A list of numbers from `low` on, each larger than those before it.
abbrev pub IsIncreasing : ℕ → List ℕ → Type 0
IsIncreasing low [] = Unit {0}
IsIncreasing low (q ∷ qs) = (low ≤ q) × IsIncreasing (suc q) qs

-- An index of the node's range, and of a leaf of its tree.
abbrev pub IsInRange : NodeConfig → ℕ → Type 0
IsInRange config q =
    (config.first_q ≤ q) × (q < config.first_q + config.number_of_sessions) × (q < 1024)

IsIncreasing-le :
    (low high : ℕ) (qs : List ℕ) → low ≤ high → IsIncreasing high qs → IsIncreasing low qs
IsIncreasing-le low high [] h increasing = tt
IsIncreasing-le low high (q ∷ qs) h (le, increasing) = (omega arith, increasing)

-- The flash store can be read wherever an index is reserved.
abbrev pub Reads : Event → Type 0
Reads (reserve flash) = flash.reads ≡ true
Reads (lose_power reads landed) = reads ≡ true
Reads (restart opened flash) = Unit {0}

module _ (config : NodeConfig) (kept : config.reset_q_counter ≡ false) where
  unused-IsInRange : (q : ℕ) → is_unused config q ≡ true → IsInRange config q
  unused-IsInRange q h = ground arith

  -- What an event does: it hands out the next index and steps past it, or hands out none, and never
  -- steps back.
  abbrev Moves : Nvs → Option ℕ × Nvs → Type 0
  Moves nvs (none, next) = get_next_q config true nvs ≤ get_next_q config true next
  Moves nvs (some q, next) =
      (q ≡ get_next_q config true nvs) × IsInRange config q × (get_next_q config true next ≡ suc q)

  Moves-same : (nvs : Nvs) → Moves nvs (none, nvs)
  Moves-same nvs = omega arith

  reserve_q-Moves :
      (put : PutAnswer) (nvs : Nvs)
      → Moves nvs (reserve_q config (record { reads = true; put = put }) nvs)
  unfolding reserve_q
  reserve_q-Moves stored nvs =
      if-cases (Moves nvs) (is_unused config (get_next_q config true nvs)) _ _
        (λ unused. (refl, unused-IsInRange _ unused, omega (arith, unused-IsInRange _ unused)))
        (λ used. Moves-same nvs)
  reserve_q-Moves (failed true) nvs =
      if-cases (Moves nvs) (is_unused config (get_next_q config true nvs)) _ _
        (λ unused. omega (arith, unused-IsInRange _ unused)) (λ used. Moves-same nvs)
  reserve_q-Moves (failed false) nvs =
      if-cases (Moves nvs) (is_unused config (get_next_q config true nvs)) _ _
        (λ unused. Moves-same nvs) (λ used. Moves-same nvs)

  Moves-le :
      (nvs : Nvs) (result : Option ℕ × Nvs)
      → Moves nvs result
      → get_next_q config true nvs ≤ get_next_q config true result.1
  Moves-le nvs (none, next) h = h
  Moves-le nvs (some q, next) h = omega arith

  happen-Moves : (event : Event) (nvs : Nvs) → Reads event → Moves nvs (happen config event nvs)
  unfolding happen initialize_persistent_counter
  happen-Moves (reserve flash) nvs h =
      subst (λ k. Moves nvs (reserve_q config (record { reads = k; put = flash.put }) nvs)) (sym h)
        (reserve_q-Moves flash.put nvs)
  happen-Moves (lose_power reads landed) nvs h =
      subst
        (λ k.
          Moves nvs (none, (reserve_q config (record { reads = k; put = failed landed }) nvs).1))
        (sym h)
        (Moves-le nvs (reserve_q config (record { reads = true; put = failed landed }) nvs)
          (reserve_q-Moves (failed landed) nvs))
  happen-Moves (restart true flash) nvs h = rw kept (omega arith)
  happen-Moves (restart false flash) nvs h = omega arith

  add_reserved_lem :
      (nvs : Nvs) (result : Option ℕ × Nvs) (qs : List ℕ)
      → Moves nvs result
      → IsIncreasing (get_next_q config true result.1) qs × All (IsInRange config) qs
      → IsIncreasing (get_next_q config true nvs) (add_reserved result.0 qs)
        × All (IsInRange config) (add_reserved result.0 qs)
  add_reserved_lem nvs (none, next) qs moves (increasing, range) =
      (IsIncreasing-le _ _ qs moves increasing, range)
  add_reserved_lem nvs (some q, next) qs (same, here, step) (increasing, range) = (
    (
      omega arith,
      IsIncreasing-le (suc q) (get_next_q config true next) qs (omega arith) increasing,
    ),
    (here, range),
  )

  reserved_from :
      (events : List Event) (nvs : Nvs)
      → All Reads events
      → IsIncreasing (get_next_q config true nvs) (reserved config nvs events)
        × All (IsInRange config) (reserved config nvs events)
  unfolding reserved
  reserved_from [] nvs reads = (tt, tt)
  reserved_from (event ∷ events) nvs (here, reads) =
      add_reserved_lem nvs (happen config event nvs)
        (reserved config (happen config event nvs).1 events) (happen-Moves event nvs here)
        (reserved_from events (happen config event nvs).1 reads)

-- Without a reset of the counter, and where flash can be read wherever an index is reserved,
-- whatever the order of reservations, failed writes, losses of power and starts: the indices handed
-- out are strictly increasing from the stored one on, so that none is handed out twice, and lie in
-- the node's range and below the number of leaves.
pub reserved-IsIncreasing :
    (config : NodeConfig) (nvs : Nvs) (events : List Event)
    → config.reset_q_counter ≡ false
    → All Reads events
    → IsIncreasing (get_next_q config true nvs) (reserved config nvs events)
      × All (IsInRange config) (reserved config nvs events)
reserved-IsIncreasing config nvs events kept reads = reserved_from config kept events nvs reads

-- `low`, `low + 1`, ..., `n` of them.
abbrev pub range : ℕ → ℕ → List ℕ
range low zero = []
range low (suc n) = low ∷ range (suc low) n

abbrev pub reservations : ℕ → List Event
reservations zero = []
reservations (suc n) = reserve works ∷ reservations n

module _ (config : NodeConfig) (he : config.first_q + config.number_of_sessions ≤ 1024) where
  reserve_q_unused :
      (next_q : ℕ)
      → config.first_q ≤ next_q
      → next_q < config.first_q + config.number_of_sessions
      → reserve_q config works (some next_q) ≡ (some next_q, some (suc next_q))
  unfolding reserve_q
  reserve_q_unused next_q hl hn = rw (unused, step) refl
    where
      unused : is_unused config next_q ≡ true
      unused = ground arith

      step : (next_q + 1) % 2 ^ 32 ≡ suc next_q
      step = omega arith

  reserve_q_used :
      (next_q : ℕ)
      → next_q ≡ config.first_q + config.number_of_sessions
      → reserve_q config works (some next_q) ≡ (none, some next_q)
  unfolding reserve_q
  reserve_q_used next_q hn = rw used refl
    where
      used : is_unused config next_q ≡ false
      used = ground arith

  none_left :
      (next_q more : ℕ)
      → next_q ≡ config.first_q + config.number_of_sessions
      → reserved config (some next_q) (reservations more) ≡ []
  unfolding reserved happen
  none_left next_q zero h = refl
  none_left next_q (suc more) h = rw (reserve_q_used next_q h) (none_left next_q more h)

  all_left :
      (n next_q more : ℕ)
      → config.first_q ≤ next_q
      → next_q + n ≡ config.first_q + config.number_of_sessions
      → reserved config (some next_q) (reservations n ++ reservations more) ≡ range next_q n
  unfolding reserved happen
  all_left zero next_q more hl hn = none_left next_q more (omega arith)
  all_left (suc n) next_q more hl hn =
      rw (reserve_q_unused next_q hl (omega arith))
        (ap (◌∷◌ next_q) (all_left n (suc next_q) more (omega arith) (omega arith)))

-- Where the range fits the tree and flash can be read and stores every write, the node gets every
-- index that is left, in order, and then no more.
pub reserved_all :
    (config : NodeConfig) (next_q n more : ℕ)
    → config.first_q ≤ next_q
    → next_q + n ≡ config.first_q + config.number_of_sessions
    → config.first_q + config.number_of_sessions ≤ 1024
    → reserved config (some next_q) (reservations n ++ reservations more) ≡ range next_q n
reserved_all config next_q n more hl hn he = all_left config he n next_q more hl hn

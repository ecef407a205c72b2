-- ===== src/Protocol/Counter.antt =====
-- The counter of one-time keys: `initializePersistentCounter` and `reserveQ`.
use post_quantum_uav_uav.Prelude.{
  ℕ, ◌+◌, ◌%◌, ◌^◌, Bool, true, false, not, ◌||◌, Option, none, some, List, [], ◌∷◌, ltb, leb,
  if◌then◌else◌,
}
use post_quantum_uav_uav.Lms.Tree.{lms_leaves}
use post_quantum_uav_uav.Protocol.Config.{NodeConfig}

-- What flash holds under "nextq"; `none` where nothing is stored.
abbrev pub Nvs : Type 0
Nvs = Option ℕ

-- `getUInt("nextq", firstQ)`: the default stands for a missing value, and for a read that fails.
abbrev pub get_next_q : NodeConfig → Bool → Nvs → ℕ
get_next_q config false nvs = config.first_q
get_next_q config true none = config.first_q
get_next_q config true (some next_q) = next_q

-- What `putUInt` does: it stores the value, or returns 0, and may have stored it all the same.
pub data PutAnswer : Type 0 where
  stored : PutAnswer
  failed : Bool → PutAnswer

-- Whether `getUInt` can read flash in a call, and what `putUInt` does in it.
pub record FlashAnswer : Type 0 where
  pub reads : Bool
  pub put : PutAnswer

abbrev pub works : FlashAnswer
works = record { reads = true; put = stored }

abbrev pub misread : FlashAnswer
misread = record { reads = false; put = stored }

abbrev pub put_uint : PutAnswer → ℕ → Nvs → Bool × Nvs
put_uint stored value nvs = (true, some value)
put_uint (failed landed) value nvs = (false, if landed then some value else nvs)

abbrev pub end_q : NodeConfig → ℕ
end_q config = (config.first_q + config.number_of_sessions) % 2 ^ 32

abbrev pub is_unused : NodeConfig → ℕ → Bool
is_unused config next_q =
    not (ltb next_q config.first_q || leb (end_q config) next_q || leb lms_leaves next_q)

-- `opened` is what `m_preferences.begin` returns.
unfoldable pub initialize_persistent_counter : NodeConfig → Bool → FlashAnswer → Nvs → Bool × Nvs
initialize_persistent_counter config opened flash nvs =
    if not opened
    then (false, nvs)
    else (let next =
          if config.reset_q_counter then (put_uint flash.put config.first_q nvs).1 else nvs in
        (is_unused config (get_next_q config flash.reads next), next))

-- The index where the call returns true, and what flash holds then.
unfoldable pub reserve_q : NodeConfig → FlashAnswer → Nvs → Option ℕ × Nvs
reserve_q config flash nvs =
    let next_q = get_next_q config flash.reads nvs in
    let (persisted, next) = put_uint flash.put ((next_q + 1) % 2 ^ 32) nvs in
    if is_unused config next_q
    then if persisted then (some next_q, next) else (none, next)
    else (none, nvs)

-- What can happen to a node: a reservation, a loss of power in the middle of one, before or after the
-- new value is in flash, and a start.
pub data Event : Type 0 where
  reserve : FlashAnswer → Event
  lose_power : Bool → Bool → Event
  restart : Bool → FlashAnswer → Event

-- The index handed out, and what flash holds.
unfoldable pub happen : NodeConfig → Event → Nvs → Option ℕ × Nvs
happen config (reserve flash) nvs = reserve_q config flash nvs
happen config (lose_power reads landed) nvs =
    (none, (reserve_q config (record { reads = reads; put = failed landed }) nvs).1)
happen config (restart opened flash) nvs =
    (none, (initialize_persistent_counter config opened flash nvs).1)

abbrev pub add_reserved : Option ℕ → List ℕ → List ℕ
add_reserved none qs = qs
add_reserved (some q) qs = q ∷ qs

-- The indices that are handed out over a node's life, first to last.
unfoldable pub reserved : NodeConfig → Nvs → List Event → List ℕ
reserved config nvs [] = []
reserved config nvs (event ∷ events) =
    let (q, next) = happen config event nvs in add_reserved q (reserved config next events)

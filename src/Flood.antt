-- ===== src/Flood.antt =====
-- Flood control, src/FloodController.cpp and src/include/skivvy/FloodController.h: a queue of
-- events for each channel, and a dispatcher that serves the channels in turn.
-- Every method holds the mutex, so a run is a sequence of whole calls. The callbacks are values of
-- a parameter type, and a round of the dispatcher returns the one that it calls.
pub mod Channels
pub mod Round
pub mod Fair
pub mod Refines
mod Tests
use skivvy.Base.{
  ℕ, zero, suc, ◌+◌, ◌-◌, Bool, true, false, not, Option, none, some, List, [], ◌∷◌, ◌++◌, leb,
  ◌==◌, if◌then◌else◌, Str, str_eq, length, get_elem?, is_nil,
}

module _ {ℓ} {A : Type ℓ} where
  -- `std::map<str, dispatch_que>`; a missing key reads as an empty queue, as `m[k]` makes one.
  unfoldable pub queue_of : Str → List (Str × List A) → List A
  queue_of k [] = []
  queue_of k ((j, q) ∷ m) = if str_eq j k then q else queue_of k m

  unfoldable pub put : Str → List A → List (Str × List A) → List (Str × List A)
  put k q [] = (k, q) ∷ []
  put k q ((j, r) ∷ m) = if str_eq j k then (j, q) ∷ m else (j, r) ∷ put k q m

  unfoldable pub erase : Str → List (Str × List A) → List (Str × List A)
  erase k [] = []
  erase k ((j, q) ∷ m) = let rest = erase k m in if str_eq j k then rest else (j, q) ∷ rest

pub record Flood {ℓ} (A : Type ℓ) : Type ℓ where
  pub m : List (Str × List A)
  pub keys : List Str
  pub idx : ℕ
  pub time_between_checks : ℕ
  pub time_between_events : ℕ
  pub dispatching : Bool

-- `stl::find(keys, channel) != keys.end()`
unfoldable pub has_key : Str → List Str → Bool
has_key c [] = false
has_key c (k ∷ keys) = if str_eq k c then true else has_key c keys

-- `keys.erase(found)`: the first occurrence.
unfoldable pub erase_key : Str → List Str → List Str
erase_key c [] = []
erase_key c (k ∷ keys) = if str_eq k c then keys else k ∷ erase_key c keys

module _ {ℓ} {A : Type ℓ} where
  pub init : Flood A
  init = record {
    m = [];
    keys = [];
    idx = 0;
    time_between_checks = 300;
    time_between_events = 1600;
    dispatching = false;
  }

  unfoldable pub send : Str → A → Flood A → Flood A × Bool
  send channel func s = (
    record s {
      m = put channel (queue_of channel s.m ++ func ∷ []) s.m;
      keys = if has_key channel s.keys then s.keys else s.keys ++ channel ∷ [];
    },
    true,
  )

  unfoldable pub clear : Flood A → Flood A
  clear s = record s { m = []; keys = [] }

  unfoldable pub clear_channel : Str → Flood A → Flood A
  clear_channel channel s =
      if has_key channel s.keys
      then record s { m = erase channel s.m; keys = erase_key channel s.keys }
      else s

  -- `!m[keys[i]].empty()`
  unfoldable pub waiting : Flood A → ℕ → Bool
  waiting s i = elim (get_elem? s.keys i) [ none ↦ false | some k ↦ not (is_nil (queue_of k s.m)) ]

  -- `for(; idx < idx + n; ++idx) if(!m[keys[idx]].empty()) break;`: where `idx` comes to stand.
  unfoldable pub scan : Flood A → ℕ → ℕ → ℕ
  scan s zero i = i
  scan s (suc n) i = let rest = scan s n (suc i) in if waiting s i then i else rest

  -- `if(++idx >= keys.size()) idx = 0;`
  unfoldable pub first : Flood A → ℕ
  first s = if leb (length s.keys) (suc s.idx) then 0 else suc s.idx

  -- Where the two loops of a round leave `idx`, and whether they found a queue with an event.
  unfoldable pub seek : Flood A → ℕ × Bool
  seek s =
      let size = length s.keys in
      let end = first s in
      let i = scan s (size - end) end in
      let j = scan s end 0 in if i == size then (j, not (j == end)) else (i, true)

  take_front : Flood A → Str → List A → Flood A × Option A
  take_front s k [] = (s, none)
  take_front s k (a ∷ q) = (record s { m = put k q s.m }, some a)

  serve : Flood A → Option Str → Flood A × Option A
  unfolding take_front
  serve s none = (s, none)
  serve s (some k) = take_front s k (queue_of k s.m)

  -- One round of `dispatcher` under the lock: the event that it calls, if any.
  unfoldable pub dispatch : Flood A → Flood A × Option A
  unfolding serve
  dispatch s =
      let (i, found) = seek s in
      let s' = record s { idx = i } in if found then serve s' (get_elem? s.keys i) else (s', none)

  unfoldable pub start : Flood A → Flood A
  start s = record s { dispatching = true }

  unfoldable pub stop : Flood A → Flood A
  stop s = record s { dispatching = false }

  unfoldable pub set_time_between_checks : ℕ → Flood A → Flood A
  set_time_between_checks n s = record s { time_between_checks = n }

  unfoldable pub set_time_between_events : ℕ → Flood A → Flood A
  set_time_between_events n s = record s { time_between_events = n }

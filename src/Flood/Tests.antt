-- ===== src/Flood/Tests.antt =====
-- Runs of the flood controller, and the theorems at concrete queues. An event is a number.
use skivvy.Base.{ℕ, ◌<◌, true, ◌≡◌, refl, none, some, List, [], ◌∷◌, codes}
use skivvy.Flood.{
  Flood, send, clear_channel, queue_of, put, has_key, init, waiting, scan, first, seek, serve,
  take_front, dispatch,
}
use skivvy.Flood.Channels.{
  Call, sends, clears_channel, round, run, step, IsConsistent, run-init-IsConsistent,
}
use skivvy.Flood.Refines.{Steps, queues, all_out, calls_out, run-init-Steps}
use skivvy.Flood.Fair.{rounds, dispatch_fair}

-- Two channels wait, `#b` with one event and `#a` with two; `#a` was served last.
abbrev two_channels : Flood ℕ
two_channels = record {
  m = (codes "#a", 1 ∷ 2 ∷ []) ∷ (codes "#b", 3 ∷ []) ∷ [];
  keys = codes "#a" ∷ codes "#b" ∷ [];
  idx = 0;
  time_between_checks = 300;
  time_between_events = 1600;
  dispatching = true;
}

dispatch-run : (dispatch two_channels).1 ≡ some 3
unfolding dispatch seek scan first waiting queue_of serve take_front
dispatch-run = refl

abbrev calls : List (Call ℕ)
calls = sends (codes "#a") 1 ∷ sends (codes "#b") 2 ∷ round ∷ clears_channel (codes "#a") ∷ []

run-init-IsConsistent_example : IsConsistent (run init calls)
run-init-IsConsistent_example = run-init-IsConsistent calls

dispatch_fair_example : (n : ℕ) × (n < 2) × ((dispatch (rounds n two_channels)).1 ≡ some 1)
unfolding has_key queue_of
dispatch_fair_example =
    dispatch_fair two_channels 0 (codes "#a") 1 (2 ∷ []) (refl, (refl, tt)) refl refl

run-init-Steps_example : Steps (queues init) calls (all_out init calls) (queues (run init calls))
run-init-Steps_example = run-init-Steps calls

all_out-run : all_out init calls ≡ none ∷ none ∷ some 2 ∷ none ∷ []
unfolding all_out calls_out step dispatch seek scan first waiting queue_of serve take_front init
    send put has_key clear_channel
all_out-run = refl

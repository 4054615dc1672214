-- ===== src/Timers/Tests.antt =====
-- Tests of src/Timers.cpp.
use skivvy.Base.{refl, ◌≡◌, List, [], ◌∷◌, true, false, not, if◌then◌else◌, is_nil}
use skivvy.Timers.{new_timer, count, insert_user, erase_user, on, off, timer_round}
use skivvy.Timers.Users.{Call, ons, offs, step, run, wants, run-wants}

abbrev calls : List Call
calls = ons 7 ∷ ons 5 ∷ ons 7 ∷ offs 7 ∷ offs 9 ∷ []

-- An address is one user however often the timer is put on for it.
calls_test : timer_round (run new_timer calls) ≡ 5 ∷ []
unfolding run step on off insert_user erase_user count timer_round
calls_test = refl

run-wants_example :
    let s = run new_timer calls in
    (count 5 (timer_round s) ≡ wants 5 false calls)
    × ((on 5 s).1 ≡ not (wants 5 false calls))
    × ((off true 5 s).1 ≡ wants 5 false calls)
    × (s.running ≡ (if is_nil (timer_round s) then 0 else 1))
run-wants_example = run-wants calls 5

-- ===== src/Timers/Users.antt =====
-- Who is called back by the timers of src/Timers.cpp, and by how many threads: theorem.
use skivvy.Base.{
  ℕ, Bool, true, false, not, ◌≡◌, refl, inl, inr, List, [], ◌∷◌, arith, ◌==◌, ◌||◌, if◌then◌else◌,
  is_nil, Bool-cases, ap, ◌∙◌, then_of, else_of,
}
use skivvy.Timers.{
  RandomTimer, new_timer, count, insert_user, erase_user, one, on, off, turn_off, set_mindelay,
  set_maxdelay, timer_round,
}

-- The calls of the class.
pub data Call : Type 0 where
  ons : ℕ → Call
  offs : ℕ → Call
  turns_off : Call
  mindelays : ℕ → Call
  maxdelays : ℕ → Call

-- A call whose wait, if there is one, ends in time.
unfoldable pub step : Call → RandomTimer → RandomTimer
step (ons u) s = (on u s).0
step (offs u) s = (off true u s).0
step turns_off s = (turn_off true s).0
step (mindelays n) s = set_mindelay n s
step (maxdelays n) s = set_maxdelay n s

unfoldable pub run : RandomTimer → List Call → RandomTimer
run s [] = s
run s (c ∷ cs) = run (step c s) cs

-- Whether a user has the timer on behind the calls, from whether he had before.
unfoldable pub wants : ℕ → Bool → List Call → Bool
wants u b [] = b
wants u b (ons v ∷ cs) = wants u (b || v == u) cs
wants u b (offs v ∷ cs) = wants u (if v == u then false else b) cs
wants u b (turns_off ∷ cs) = wants u false cs
wants u b (mindelays n ∷ cs) = wants u b cs
wants u b (maxdelays n ∷ cs) = wants u b cs

count-insert_user : (u v : ℕ) (us : List ℕ) → count u (insert_user v us) ≡ (v == u || count u us)
unfolding count insert_user
count-insert_user u v [] = ground arith
count-insert_user u v (w ∷ us) = ground (arith, count-insert_user u v us)

count-erase_user :
    (u v : ℕ) (us : List ℕ) → count u (erase_user v us) ≡ (if v == u then false else count u us)
unfolding count erase_user
count-erase_user u v [] = ground arith
count-erase_user u v (w ∷ us) = ground (arith, count-erase_user u v us)

is_nil-insert_user : (u : ℕ) (us : List ℕ) → is_nil (insert_user u us) ≡ false
unfolding insert_user
is_nil-insert_user u [] = refl
is_nil-insert_user u (v ∷ us) = ground arith

one-insert_user : (u : ℕ) (us : List ℕ) → count u us ≡ false → one (insert_user u us) ≡ is_nil us
unfolding insert_user count
one-insert_user u [] h = refl
one-insert_user u (v ∷ us) h = ground (arith, is_nil-insert_user u us)

absorb : (u v : ℕ) (us : List ℕ) → count v us ≡ true → count u us ≡ (count u us || v == u)
unfolding count
absorb u v [] h = ground arith
absorb u v (w ∷ us) h = ground (arith, absorb u v us)

drop :
    (u v : ℕ) (us : List ℕ)
    → count v us ≡ false
    → count u us ≡ (if v == u then false else count u us)
unfolding count
drop u v [] h = ground arith
drop u v (w ∷ us) h = ground (arith, drop u v us)

off_users :
    (b : Bool) (u : ℕ) (s : RandomTimer)
    → (off b u s).0.users ≡ (if count u s.users then erase_user u s.users else s.users)
unfolding off
off_users b u s = ground arith

on_users :
    (u : ℕ) (s : RandomTimer)
    → (on u s).0.users ≡ (if count u s.users then s.users else insert_user u s.users)
unfolding on
on_users u s = ground arith

is_nil_then : (us : List ℕ) → is_nil us ≡ true → us ≡ []
is_nil_then [] h = refl
is_nil_then (u ∷ us) h = ground arith

turn_off_users : (b : Bool) (s : RandomTimer) → (turn_off b s).0.users ≡ []
unfolding turn_off
turn_off_users b s = elim (Bool-cases (is_nil s.users)) [
  | inl h ↦
      ap (λ (r : RandomTimer × Bool). r.0.users) (then_of (is_nil s.users) _ _ h)
      ∙ is_nil_then s.users h
  | inr h ↦ ap (λ (r : RandomTimer × Bool). r.0.users) (else_of (is_nil s.users) _ _ h)
]

step-count :
    (u : ℕ) (c : Call) (s : RandomTimer)
    → count u (step c s).users ≡ wants u (count u s.users) (c ∷ [])
unfolding step wants set_mindelay set_maxdelay count
step-count u (ons v) s = ap (count u) (on_users v s) ∙ elim (Bool-cases (count v s.users)) [
  | inl h ↦ ap (count u) (then_of (count v s.users) _ _ h) ∙ absorb u v s.users h
  | inr h ↦
      ap (count u) (else_of (count v s.users) _ _ h) ∙ count-insert_user u v s.users ∙ ground arith
]
step-count u (offs v) s = ap (count u) (off_users true v s) ∙ elim (Bool-cases (count v s.users)) [
  | inl h ↦ ap (count u) (then_of (count v s.users) _ _ h) ∙ count-erase_user u v s.users
  | inr h ↦ ap (count u) (else_of (count v s.users) _ _ h) ∙ drop u v s.users h
]
step-count u turns_off s = ap (count u) (turn_off_users true s)
step-count u (mindelays n) s = refl
step-count u (maxdelays n) s = refl

wants-step :
    (u : ℕ) (b : Bool) (c : Call) (cs : List Call)
    → wants u (wants u b (c ∷ [])) cs ≡ wants u b (c ∷ cs)
unfolding wants
wants-step u b (ons v) cs = refl
wants-step u b (offs v) cs = refl
wants-step u b turns_off cs = refl
wants-step u b (mindelays n) cs = refl
wants-step u b (maxdelays n) cs = refl

run-count :
    (u : ℕ) (cs : List Call) (s : RandomTimer)
    → count u (run s cs).users ≡ wants u (count u s.users) cs
unfolding run wants count
run-count u [] s = refl
run-count u (c ∷ cs) s =
    run-count u cs (step c s)
    ∙ ap (λ (b : Bool). wants u b cs) (step-count u c s)
    ∙ wants-step u (count u s.users) c cs

-- As many threads run as there have to be.
abbrev pub threads : List ℕ → ℕ
threads us = if is_nil us then 0 else 1

one-insert_has : (u : ℕ) (us : List ℕ) → count u us ≡ true → is_nil us ≡ false
unfolding count
one-insert_has u [] h = ground arith
one-insert_has u (v ∷ us) h = refl

step-running :
    (c : Call) (s : RandomTimer)
    → s.running ≡ threads s.users
    → (step c s).running ≡ threads (step c s).users
unfolding step on off turn_off set_mindelay set_maxdelay
step-running (ons v) s h = ground (arith, one-insert_user v s.users, is_nil-insert_user v s.users)
step-running (offs v) s h = ground (arith, one-insert_has v s.users)
step-running turns_off s h = ground arith
step-running (mindelays n) s h = h
step-running (maxdelays n) s h = h

run-running :
    (cs : List Call) (s : RandomTimer)
    → s.running ≡ threads s.users
    → (run s cs).running ≡ threads (run s cs).users
unfolding run
run-running [] s h = h
run-running (c ∷ cs) s h = run-running cs (step c s) (step-running c s h)

on-count : (u : ℕ) (s : RandomTimer) → (on u s).1 ≡ not (count u s.users)
unfolding on
on-count u s = ground arith

off-count : (b : Bool) (u : ℕ) (s : RandomTimer) → (off b u s).1 ≡ count u s.users
unfolding off
off-count b u s = ground arith

-- After any calls on a new timer, each made when the wait of the one before is over and that in
-- time, a round calls back the users whose last call puts them on with none that turns it off
-- since, `on` and `off` then answer whether they change this, and there is one thread if there are
-- users and none if not.
pub run-wants :
    (cs : List Call) (u : ℕ)
    → let s = run new_timer cs in
      (count u (timer_round s) ≡ wants u false cs)
      × ((on u s).1 ≡ not (wants u false cs))
      × ((off true u s).1 ≡ wants u false cs)
      × (s.running ≡ (if is_nil (timer_round s) then 0 else 1))
unfolding timer_round count
run-wants cs u =
    let called : count u (run new_timer cs).users ≡ wants u false cs = run-count u cs new_timer in
    (
      called,
      on-count u (run new_timer cs) ∙ ap not called,
      off-count true u (run new_timer cs) ∙ called,
      run-running cs new_timer refl,
    )

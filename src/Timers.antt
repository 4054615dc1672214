-- ===== src/Timers.antt =====
-- src/Timers.cpp: `RandomTimer`, which calls back for each user who has it on. A user is an address.
-- A method holds the mutex while it changes the users, and waits for the thread behind that. A step
-- here is a whole call with its wait.
pub mod Users
mod Tests
use skivvy.Base.{
  ℕ, suc, ◌-◌, Bool, true, false, not, ◌||◌, List, [], ◌∷◌, ltb, ◌==◌, if◌then◌else◌, is_nil,
}

pub record RandomTimer : Type 0 where
  pub users : List ℕ
  -- the threads that run `timer`
  pub running : ℕ
  pub mindelay : ℕ
  pub maxdelay : ℕ

abbrev pub new_timer : RandomTimer
new_timer = record { users = []; running = 0; mindelay = 1; maxdelay = 60 }

-- `users.count(user)`
unfoldable pub count : ℕ → List ℕ → Bool
count u [] = false
count u (v ∷ vs) = v == u || count u vs

-- `users.insert(user)`, in the order of the set
unfoldable pub insert_user : ℕ → List ℕ → List ℕ
insert_user u [] = u ∷ []
insert_user u (v ∷ vs) =
    let rest = insert_user u vs in
    if ltb u v then u ∷ v ∷ vs else if ltb v u then v ∷ rest else v ∷ vs

unfoldable pub erase_user : ℕ → List ℕ → List ℕ
erase_user u [] = []
erase_user u (v ∷ vs) = let rest = erase_user u vs in if v == u then rest else v ∷ rest

abbrev pub one : List ℕ → Bool
one [] = false
one (v ∷ vs) = is_nil vs

-- `on(user)`: the first user starts the thread.
unfoldable pub on : ℕ → RandomTimer → RandomTimer × Bool
on u s =
    let users' = insert_user u s.users in
    if count u s.users then (s, false) else (
      record s { users = users'; running = if one users' then suc s.running else s.running },
      true,
    )

-- The wait for the thread, which ends once there are no users; `ended` tells if it did within ten
-- seconds.
abbrev pub wait_for : Bool → RandomTimer → RandomTimer
wait_for ended s = record s { running = if ended then s.running - 1 else s.running }

-- `off(user)`: the last user waits for the thread.
unfoldable pub off : Bool → ℕ → RandomTimer → RandomTimer × Bool
off ended u s =
    let s1 = record s { users = erase_user u s.users } in
    if not (count u s.users)
    then (s, false)
    else if not (is_nil s1.users)
    then (s1, true)
    else (wait_for ended s1, true)

unfoldable pub turn_off : Bool → RandomTimer → RandomTimer × Bool
turn_off ended s =
    if is_nil s.users then (s, false) else (wait_for ended (record s { users = [] }), true)

unfoldable pub set_mindelay : ℕ → RandomTimer → RandomTimer
set_mindelay n s = record s { mindelay = n }

unfoldable pub set_maxdelay : ℕ → RandomTimer → RandomTimer
set_maxdelay n s = record s { maxdelay = n }

-- A round of `timer`: the users that are called back, in order.
unfoldable pub timer_round : RandomTimer → List ℕ
timer_round s = s.users

-- ===== src/Plugin.antt =====
-- src/ircbot.cpp and src/include/skivvy/ircbot.h: the commands of a plugin (`BasicIrcBotPlugin`), and
-- the functions that wait for a message of the server (`msgevent`). The callbacks are values of a
-- parameter type; running one is to return it.
pub mod Actions
pub mod Events
mod Tests
use skivvy.Base.{
  ℕ, ◌-◌, ◌%◌, Bool, true, false, not, ◌||◌, Option, none, some, List, [], ◌∷◌, ◌++◌, ltb, ◌==◌,
  if◌then◌else◌, Str, codes, str_eq,
}
use skivvy.Store.{lex}

-- `action`; `none` is an empty `std::function`.
pub record Action {ℓ} (F : Type ℓ) : Type ℓ where
  pub cmd : Str
  pub help : Str
  pub func : Option F
  pub flags : ℕ

-- `flags & action::INVISIBLE`
abbrev pub is_invisible {ℓ} : {F : Type ℓ} → Action F → Bool
is_invisible a = a.flags % 2 == 1

-- A help text that begins with `=` names another command.
abbrev pub alias_of : Str → Option Str
alias_of [] = none
alias_of (c ∷ s) = if c == b'=' then some s else none

module _ {ℓ} {F : Type ℓ} where
  unfoldable pub find_action : Str → List (Str × Action F) → Option (Action F)
  find_action k [] = none
  find_action k ((j, a) ∷ m) = let rest = find_action k m in if str_eq j k then some a else rest

  -- `std::map::insert`, which keeps an entry that is there
  unfoldable pub insert_action : Str → Action F → List (Str × Action F) → List (Str × Action F)
  insert_action k a [] = (k, a) ∷ []
  insert_action k a ((j, b) ∷ m) =
      let rest = insert_action k a m in
      if lex k j then (k, a) ∷ (j, b) ∷ m else if lex j k then (j, b) ∷ rest else (j, b) ∷ m

  unfoldable pub add_action : Action F → List (Str × Action F) → List (Str × Action F)
  add_action a m = insert_action a.cmd a m

  unfoldable pub list_actions : List (Str × Action F) → List Str
  list_actions [] = []
  list_actions ((k, a) ∷ m) =
      let rest = list_actions m in if not (is_invisible a) then k ∷ rest else rest

  shown : Str → Option (Action F) → Str
  shown cmd none = codes "unknown command alias"
  shown cmd (some a) = if is_invisible a then codes "none" else cmd ++ b' ' ∷ a.help

  abbrev help_of : List (Str × Action F) → Str → Action F → Option Str → Str
  help_of m cmd a none = cmd ++ b' ' ∷ a.help
  help_of m cmd a (some new_cmd) = shown cmd (find_action new_cmd m)

  unfoldable pub help_text : List (Str × Action F) → Str → Str
  unfolding shown
  help_text m cmd = elim (find_action cmd m) [
    | none ↦ codes "unknown command"
    | some a ↦ if is_invisible a then codes "none" else help_of m cmd a (alias_of a.help)
  ]

  abbrev pub default_action : Action F
  default_action = record { cmd = []; help = []; func = none; flags = 0 }

  -- `actions[cmd].func(msg)`: the actions and the function that is called; `none` throws.
  unfoldable pub execute : Str → List (Str × Action F) → List (Str × Action F) × Option F
  execute cmd m = elim (find_action cmd m) [
    | none ↦ (insert_action cmd default_action m, none)
    | some a ↦ (m, a.func)
  ]

-- `msgevent`
pub record MsgEvent {ℓ} (F : Type ℓ) : Type ℓ where
  pub done : Bool
  pub when : ℕ
  pub timeout : ℕ
  pub func : F

module _ {ℓ} {F : Type ℓ} where
  -- `now - li->when > li->timeout`; a difference below 0 is above no timeout.
  unfoldable pub is_over : ℕ → MsgEvent F → Bool
  is_over now e = e.done || ltb e.timeout (now - e.when)

  -- The loop of `dispatch_msgevent`: the functions called, in order, and the list that is left.
  unfoldable pub dispatch_list : ℕ → List (MsgEvent F) → List F × List (MsgEvent F)
  dispatch_list now [] = ([], [])
  dispatch_list now (e ∷ es) =
      let (called, left) = dispatch_list now es in
      if is_over now e then (called, left) else (e.func ∷ called, e ∷ left)

  unfoldable pub events_of : Str → List (Str × List (MsgEvent F)) → List (MsgEvent F)
  events_of c [] = []
  events_of c ((d, es) ∷ m) = let rest = events_of c m in if str_eq d c then es else rest

  unfoldable pub set_events :
      Str → List (MsgEvent F) → List (Str × List (MsgEvent F)) → List (Str × List (MsgEvent F))
  set_events c es [] = (c, es) ∷ []
  set_events c es ((d, fs) ∷ m) =
      let rest = set_events c es m in if str_eq d c then (d, es) ∷ m else (d, fs) ∷ rest

  -- `msgevents[msg].insert(msgevents[msg].begin(), me)`
  unfoldable pub add_msgevent :
      Str → MsgEvent F → List (Str × List (MsgEvent F)) → List (Str × List (MsgEvent F))
  add_msgevent c e m = set_events c (e ∷ events_of c m) m

  -- The list of a command that has one is replaced.
  unfoldable pub put_back :
      Str → List (MsgEvent F) → List (Str × List (MsgEvent F)) → List (Str × List (MsgEvent F))
  put_back c es [] = []
  put_back c es ((d, fs) ∷ m) =
      let rest = put_back c es m in if str_eq d c then (d, es) ∷ m else (d, fs) ∷ rest

  -- `dispatch_msgevent(msg)` for a message with that command, at the time `now`
  unfoldable pub dispatch_msgevent :
      ℕ → Str → List (Str × List (MsgEvent F)) → List F × List (Str × List (MsgEvent F))
  dispatch_msgevent now c m =
      let (called, left) = dispatch_list now (events_of c m) in (called, put_back c left m)

-- ===== src/Bot/Allowed.antt =====
-- Who may run a command, `execute` and `has_access` of src/ircbot.cpp: theorems.
use skivvy.Base.{◌≢◌, none, All, true, ◌≡◌, refl, ap, ◌⊎◌, some, List, [], ◌∷◌, arith, Str, codes}
use skivvy.Message.{Message, from_channel, get_to}
use skivvy.Bot.{World, Bot, Plugin, ChanPrefix, ran, does}
use skivvy.Bot.Aliases.{Alias, IsFirst, IsOther}
use skivvy.Bot.Access.{entries_of, command_of, execute, ban_loop, execute_unbanned}

-- An entry of a list is one for the plugin of that name.
abbrev pub HasEntry : Str → List ChanPrefix → Type 0
HasEntry n [] = ⊥
HasEntry n (c ∷ cs) = (c.plugin ≡ n) ⊎ HasEntry n cs

-- A plugin may run its commands for a message if it has an entry under `*`, under `PM`, or under the
-- channel that the message was sent to.
abbrev pub MayRun : Plugin → Message → Bot → Type 0
MayRun p msg s =
    HasEntry p.name (entries_of (codes "*") s.chan_access)
    ⊎ HasEntry p.name (entries_of (codes "PM") s.chan_access)
    ⊎ ((from_channel msg ≡ true) × HasEntry p.name (entries_of (get_to msg) s.chan_access))

-- The plugin of the command runs it, if there is one and it may; else nothing changes.
abbrev pub Runs : Str → Message → Bot → Bot → Type 0
Runs cmd msg s s' =
    ((p : Plugin) × (command_of cmd s.commands ≡ some p)
      × MayRun p msg s
      × (s' ≡ does (ran p.id cmd msg) s))
    ⊎ ((p : Plugin) × (command_of cmd s.commands ≡ some p) × (¬ MayRun p msg s) × (s' ≡ s))
    ⊎ ((command_of cmd s.commands ≡ none) × (s' ≡ s))

-- What `execute` does where the property `command.alias` holds these aliases.
abbrev pub Executes : World → Str → Message → List Alias → Bot → Bot → Type 0
Executes w cmd msg as' s s' =
    ((a : Alias) × IsFirst w msg cmd a as' × (a.to ≡ cmd) × (s' ≡ s))
    ⊎ ((a : Alias) × IsFirst w msg cmd a as' × (a.to ≢ cmd) × (a.from ≡ cmd) × Runs a.to msg s s')
    ⊎ (All (IsOther w msg cmd) as' × Runs cmd msg s s')

ban_loop-eq : (w : World) (msg : Message) (bans : List Str) (s : Bot) → ban_loop w msg bans s ≡ s
unfolding ban_loop
ban_loop-eq w msg [] s = refl
ban_loop-eq w msg (b ∷ bans) s = ground (arith, ban_loop-eq w msg bans s)

-- Whatever the bans and whoever sent the message, the last branch runs the command as `execute` does:
-- a ban keeps nobody from it.
pub execute_unbanned-eq-execute :
    (w : World) (cmd : Str) (msg : Message) (s : Bot)
    → execute_unbanned w cmd msg s ≡ execute w cmd msg s
unfolding execute_unbanned
execute_unbanned-eq-execute w cmd msg s = ap (execute w cmd msg) (ban_loop-eq w msg _ s)

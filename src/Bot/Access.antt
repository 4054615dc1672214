-- ===== src/Bot/Access.antt =====
-- Access to commands in src/ircbot.cpp: who may run a command where, the aliases of a channel, the
-- bans, and the help that the bot gives.
use skivvy.Base.{
  Bool, false, not, ◌&&◌, ◌||◌, Option, none, some, List, [], ◌∷◌, ◌++◌, ◌==◌, if◌then◌else◌, Str,
  codes, str_eq, is_empty, has_char,
}
use skivvy.Stream.{good, read_word}
use skivvy.Message.{Message, get_to, get_chan, get_userhost, from_channel}
use skivvy.Bot.{
  World, Bot, Plugin, ChanPrefix, ran, does, have, get_vec, get_prop, get_set_or, get_wild_keys,
}

unfoldable pub command_of : Str → List (Str × Plugin) → Option Plugin
command_of c [] = none
command_of c ((k, p) ∷ m) = let rest = command_of c m in if str_eq k c then some p else rest

abbrev pub has_plugin_name : Str → List ChanPrefix → Bool
has_plugin_name n [] = false
has_plugin_name n (c ∷ cs) = str_eq c.plugin n || has_plugin_name n cs

abbrev pub entries_of : Str → List (Str × List ChanPrefix) → List ChanPrefix
entries_of chan [] = []
entries_of chan ((k, cs) ∷ m) = if str_eq k chan then cs else entries_of chan m

-- `has_access(cmd, chan)`, for the plugin `commands[cmd]`
-- `chan_access[chan]` also makes an empty entry for a channel that has none. That is left out: nothing but
-- this function and the insertion of entries reads the map, and both take an empty entry for none.
unfoldable pub has_access : Plugin → Str → Bot → Bool
has_access p chan s = has_plugin_name p.name (entries_of chan s.chan_access)

unfoldable pub allow_cmd_access : Plugin → Message → Bot → Bool
allow_cmd_access p msg s =
    has_access p (codes "*") s
    || (from_channel msg && has_access p (get_to msg) s)
    || has_access p (codes "PM") s

-- What the loop over the aliases finds: the command is in use, or has an alias, or neither.
pub data Aliased : Type 0 where
  in_use : Aliased
  alias : Str → Aliased
  unaliased : Aliased

module _ (w : World) where
  -- The loop over `command.alias`; `chan`, `from` and `to` keep what the last entry left.
  unfoldable pub alias_loop : Message → Str → Str × Str × Str → List Str → Aliased
  alias_loop msg cmd olds [] = unaliased
  alias_loop msg cmd (chan, from, to) (c ∷ cs) =
      let (chan1, is1) = read_word chan (good c) in
      let (from1, is2) = read_word from is1 in
      let (to1, is3) = read_word to is2 in
      let chan2 = w.hol.lower chan1 in
      let skipped = alias_loop msg cmd (chan1, from1, to1) cs in
      let rest = alias_loop msg cmd (chan2, from1, to1) cs in
      if is3.fail
      then skipped
      else if not (str_eq chan2 (w.hol.lower (get_chan msg)))
      then rest
      else if str_eq to1 cmd
      then in_use
      else if str_eq from1 cmd
      then alias to1
      else rest

  unfoldable pub find_alias : Str → Message → Bot → Aliased
  find_alias cmd msg s = alias_loop msg cmd ([], [], []) (get_set_or (codes "command.alias") cmd s)

  -- A command that is found is run where it is allowed.
  unfoldable pub run_command : Str → Message → Bot → Bot
  run_command cmd msg s = elim (command_of cmd s.commands) [
    | none ↦ s
    | some p ↦ if allow_cmd_access p msg s then does (ran p.id cmd msg) s else s
  ]

  -- `execute(cmd, msg)`
  unfoldable pub execute : Str → Message → Bot → Bot
  execute cmd msg s = elim (find_alias cmd msg s) [
    | in_use ↦ s
    | alias to ↦ run_command (if is_empty to then cmd else to) msg s
    | unaliased ↦ run_command cmd msg s
  ]

  -- The loop over the bans: its `continue` goes on with the next ban.
  unfoldable pub ban_loop : Message → List Str → Bot → Bot
  ban_loop msg [] s = s
  ban_loop msg (ban ∷ bans) s =
      if w.wild_match ban (get_userhost msg) then ban_loop msg bans s else ban_loop msg bans s

  -- The last branch of the built-in commands.
  unfoldable pub execute_unbanned : Str → Message → Bot → Bot
  execute_unbanned cmd msg s = execute cmd msg (ban_loop msg (get_vec (codes "ban") s) s)

  abbrev list_commands : List Plugin → List Str
  list_commands [] = []
  list_commands (p ∷ ps) = p.commands ++ list_commands ps

  -- `list()`
  unfoldable pub list : Bot → List Str
  list s = list_commands s.plugins

  -- `key.substr(key.find_last_of('.') + 1)`, the key where it has no dot; a dot that ends it leaves
  -- the empty text.
  abbrev behind_dot : Str → Option Str
  behind_dot [] = none
  behind_dot (c ∷ s) = if has_char s b'.' then behind_dot s else if c == b'.' then some s else none

  -- One line of help: `\\t`, `\\n` and `\\s` stand for a tab, a line's end and two spaces.
  abbrev help_line : Str → Str
  help_line t =
      let t1 = w.hol.replace_all t (codes "\\t") (9 ∷ []) in
      let t2 = w.hol.replace_all t1 (codes "\\n") (10 ∷ []) in
      w.hol.replace_all t2 (codes "\\s") (codes "  ")

  abbrev help_lines : Str → Str → List Str → Str
  help_lines builtin sep [] = []
  help_lines builtin sep (t ∷ ts) =
      sep ++ (builtin ++ b' ' ∷ (help_line t ++ help_lines builtin (10 ∷ []) ts))

  -- The loop over the built-in commands: `none` where it ends without help.
  unfoldable pub builtin_help : Str → List Str → Bot → Option Str
  builtin_help cmd [] s = none
  builtin_help cmd (key ∷ keys) s =
      let rest = builtin_help cmd keys s in
      if not (str_eq (get_prop key [] s) cmd) then rest else elim (behind_dot key) [
        | none ↦ rest
        | some name ↦
            let trigger = codes "trigger.help." ++ name in
            if have trigger s
            then some (help_lines (get_prop key [] s) [] (get_vec trigger s))
            else none
      ]

  -- `help(cmd)`
  unfoldable pub help : Str → Bot → Str
  help cmd s = elim (command_of cmd s.commands) [
    | some p ↦ p.help cmd
    | none ↦ elim (builtin_help cmd (get_wild_keys w (codes "trigger.word") s) s) [
      | some h ↦ h
      | none ↦ codes "No help available for " ++ (cmd ++ b'.' ∷ [])
    ]
  ]

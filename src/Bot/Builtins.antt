-- ===== src/Bot/Builtins.antt =====
-- The built-in commands of the bot in src/ircbot.cpp, that users type: what the message loop does for
-- each, up to its `continue` or the end of its branch.
use skivvy.Base.{
  ℕ, zero, suc, Bool, true, false, not, ◌||◌, Option, some, List, [], ◌∷◌, ◌++◌, map, ltb,
  if◌then◌else◌, Str, codes, str_eq, is_nil, is_empty, length,
}
use skivvy.Stream.{Stream, good, getline, skip_ws}
use skivvy.Message.{Message, get_user_cmd, get_user_params, mem_str}
use skivvy.Irc
use skivvy.Store.{update}
use skivvy.BotDb.{insert_key}
use skivvy.Bot.{
  World, Bot, Plugin, have, get_prop, get_vec, get_set, get_set_or, get_wild_keys, irc, fc_each,
  fc_reply, fc_reply_pm, fc_reply_pm_help, fc_reply_help,
}
use skivvy.Bot.Text.{getstring, to_string, print_duration}
use skivvy.Bot.Exec.{die, exec}
use skivvy.Bot.Access.{help, execute_unbanned}

-- `!have(PROP_PASSWORD) || get(PROP_PASSWORD) == pass`
unfoldable pub pass_ok : Str → Bot → Bool
pass_ok pass s = not (have (codes "password") s) || str_eq (get_prop (codes "password") [] s) pass

-- `while(ios::getstring(iss, val)) vals.push_back(val);`, on fuel above the bytes that are left
unfoldable pub strings : ℕ → Stream → List Str
strings zero is = []
strings (suc fuel) is =
    let (val, is1) = getstring [] is in
    let rest = strings fuel is1 in if is1.fail then [] else val ∷ rest

unfoldable pub all_strings : Stream → List Str
unfolding strings
all_strings is = strings (suc (length is.buf)) is

-- The values that `!pset` shows, from the index `i`.
unfoldable pub show_values : Message → Str → ℕ → List Str → Bot → Bot
show_values msg key i [] s = s
show_values msg key i (v ∷ vs) s =
    show_values msg key (suc i) vs
      (fc_reply msg (key ++ b'[' ∷ (to_string i ++ (codes "]: " ++ v))) s)

module _ (w : World) where
  -- A branch that reads a password first.
  abbrev with_password : Message → Str → (Str → Bot → Bot) → Bot → Bot
  with_password msg usage f s =
      let (pass, is) = getstring [] (good (get_user_params w.hol msg)) in
      if is.fail
      then fc_reply msg usage s
      else if pass_ok pass s
      then f pass s
      else fc_reply msg (codes "Wrong password") s

  unfoldable pub bot_die : Str → Message → Bot → Bot
  bot_die cmd msg s = with_password msg (cmd ++ codes " <password>") (λ pass s'. die w s') s

  -- `!uptime`, that many seconds behind the start
  unfoldable pub bot_uptime : ℕ → Message → Bot → Bot
  bot_uptime uptime msg s =
      fc_reply msg (codes "I have been active for " ++ w.hol.trim (print_duration uptime)) s

  unfoldable pub bot_join : Message → Bot → Bot
  bot_join msg s = elim (w.split_words (get_user_params w.hol msg)) [
    | [] ↦ fc_reply msg (codes "Usage: !join #channel <password>") s
    | chan ∷ ps ↦ elim ps [
      | [] ↦ fc_reply msg (codes "Usage: !join #channel <password>") s
      | pass ∷ more ↦
          let (s1, ok) = Irc.join (irc w) chan [] s in
          if not (is_nil more)
          then fc_reply msg (codes "Usage: !join #channel <password>") s
          else if not (pass_ok pass s)
          then fc_reply msg (codes "Incorrect password.") s
          else if ok
          then fc_reply msg (s1.nick ++ codes " has requested to join " ++ chan)
              (record s1 { chans = insert_key chan s1.chans })
          else s1
    ]
  ]

  -- The channel is inserted, as `!join` does.
  unfoldable pub bot_part : Message → Bot → Bot
  bot_part msg s = elim (w.split_words (get_user_params w.hol msg)) [
    | [] ↦ s
    | chan ∷ ps ↦ elim ps [
      | [] ↦ s
      | pass ∷ more ↦
          let (s1, ok) = Irc.part (irc w) chan [] s in
          if not (is_nil more)
          then s
          else if not (pass_ok pass s)
          then fc_reply msg (codes "Incorrect password.") s
          else if ok
          then fc_reply msg (s1.nick ++ codes " has requested to part " ++ chan)
              (record s1 { chans = insert_key chan s1.chans })
          else s1
    ]
  ]

  unfoldable pub bot_reconfigure : ℕ → Message → Bot → Option Bot
  bot_reconfigure depth msg s =
      let (pass, is) = getstring [] (good (get_user_params w.hol msg)) in
      if is.fail
      then some (fc_reply msg (codes "!reconfigure <password>") s)
      else if pass_ok pass s
      then exec w depth false (codes "/reconfigure") s
      else some (fc_reply msg (codes "Wrong password") s)

  -- The reply stands behind both branches.
  unfoldable pub bot_restart : Message → Bot → Bot
  bot_restart msg s =
      let (pass, is) = getstring [] (good (get_user_params w.hol msg)) in
      if is.fail
      then fc_reply msg (codes "!restart <password>") s
      else fc_reply msg (codes "Wrong password")
          (if pass_ok pass s then record s { done = true; restart = true } else s)

  -- `!pset` with the right password: the stream stands behind it.
  unfoldable pub pset_key : Message → Stream → Bot → Bot
  pset_key msg is s =
      let (name, is1) = getline b':' [] (skip_ws is) in
      let key = w.hol.trim name in
      let vals = all_strings is1 in
      let shown = record s { props = update false key (λ vs. vs) s.props } in
      if is1.fail || is_empty key
      then fc_reply msg (codes "Expected <key>: [<val1> <val2> ...]") s
      else if is_nil vals
      then show_values msg key 0 (get_vec key shown) shown
      else fc_reply msg (codes "Property " ++ key ++ codes " has been set.")
          (record s { props = update false key (λ vs. map w.hol.trim vals) s.props })

  unfoldable pub bot_pset : Message → Bot → Bot
  bot_pset msg s =
      let (pass, is) = getstring [] (good (get_user_params w.hol msg)) in
      if is.fail
      then fc_reply msg (codes "!pset <password> <key>: [<val1> <val2> ...]") s
      else if pass_ok pass s
      then pset_key msg is s
      else fc_reply msg (codes "Incorrect password.") s

  unfoldable pub bot_debug : Message → Bot → Bot
  bot_debug msg s =
      let s1 = record s { debug = not s.debug } in
      fc_reply msg
        (codes "Debug mode " ++ (if s1.debug then codes "on" else codes "off") ++ b'.' ∷ []) s1

  -- The words of a command, in brackets where there are more than one.
  abbrev joined_by : Str → List Str → Str
  joined_by sep [] = []
  joined_by sep (c ∷ cs) = sep ++ (c ++ joined_by (codes ", ") cs)

  abbrev one_of : List Str → Str
  one_of cmds =
      if ltb 1 (length cmds) then joined_by (b'[' ∷ []) cmds ++ b']' ∷ [] else joined_by [] cmds

  abbrev builtin_line : Str → List Str → Bot → Str
  builtin_line sep [] s = []
  builtin_line sep (key ∷ keys) s =
      sep ++ (one_of (get_set key s) ++ builtin_line (codes ", ") keys s)

  unfoldable pub list_plugins : Message → List Plugin → Bot → Bot
  list_plugins msg [] s = s
  list_plugins msg (p ∷ ps) s =
      let s1 = fc_reply_pm msg (9 ∷ 2 ∷ (p.name ++ 15 ∷ b' ' ∷ p.version)) s in
      list_plugins msg ps (fc_reply_pm msg (9 ∷ 9 ∷ joined_by [] p.commands) s1)

  -- `!help` without a command
  unfoldable pub list_help : Message → Bot → Bot
  list_help msg s =
      let s1 = fc_reply_pm msg (2 ∷ codes "List of commands:") s in
      let s2 = fc_reply_pm msg (9 ∷ 2 ∷ (codes "Built in" ++ 15 ∷ [])) s1 in
      let s3 =
        fc_reply_pm msg (9 ∷ 9 ∷ builtin_line [] (get_wild_keys w (codes "trigger.word") s) s) s2 in
      let s4 = list_plugins msg s.plugins s3 in
      let s5 =
        if have (codes "help.append") s
        then fc_reply_pm msg (2 ∷ codes "Additional Info:") s4
        else s4 in
      fc_each (λ h. fc_reply_pm msg (9 ∷ w.hol.replace_all h (codes "$me") s.nick))
        (get_vec (codes "help.append") s) s5

  unfoldable pub bot_help : Message → Bot → Bot
  bot_help msg s =
      let params = get_user_params w.hol msg in
      if not (is_empty params)
      then fc_reply_pm_help w msg (help w params s) [] s
      else if is_empty msg.prefix
      then s
      else list_help msg s

  -- `get_set(key, dflt).count(cmd)`
  unfoldable pub triggers : Str → Str → Str → Bot → Bool
  triggers key dflt cmd s = mem_str cmd (get_set_or key dflt s)

  -- The branches of `PRIVMSG`, `uptime` seconds behind the start.
  unfoldable pub privmsg : ℕ → ℕ → Message → Bot → Option Bot
  privmsg depth uptime msg s =
      let cmd = w.hol.lower (get_user_cmd w.hol msg) in
      if triggers (codes "trigger.word.die") (codes "!die") cmd s
      then some (bot_die cmd msg s)
      else if triggers (codes "trigger.word.uptime") (codes "!uptime") cmd s
      then some (bot_uptime uptime msg s)
      else if triggers (codes "trigger.word.join") (codes "!join") cmd s
      then some (bot_join msg s)
      else if triggers (codes "trigger.word.part") (codes "!part") cmd s
      then some (bot_part msg s)
      else if triggers (codes "trigger.word.reconfigure") (codes "!reconfigure") cmd s
      then bot_reconfigure depth msg s
      else if triggers (codes "trigger.word.restart") (codes "!restart") cmd s
      then some (bot_restart msg s)
      else if triggers (codes "trigger.word.pset") (codes "!pset") cmd s
      then some (bot_pset msg s)
      else if triggers (codes "trigger.word.debug") (codes "!debug") cmd s
      then some (bot_debug msg s)
      else if triggers (codes "trigger.word.help") (codes "!help") cmd s
      then some (bot_help msg s)
      else some (execute_unbanned w cmd msg s)

  -- The strings that `extract_params(msg, args, report)` reads for that many arguments; the bot that
  -- replied, and whether every argument was found.
  unfoldable pub extract_loop : Message → Bool → ℕ → Stream → Bot → List Str × Bot × Bool
  extract_loop msg report zero is s = ([], s, true)
  extract_loop msg report (suc n) is s =
      let (arg, is1) = getstring [] is in
      let (args, s1, ok) = extract_loop msg report n is1 s in
      let cmd = get_user_cmd w.hol msg in
      if is1.fail
      then (
        [],
        if report
            then fc_reply_help w msg (help w cmd s)
                (2 ∷ 3 ∷ (codes "04" ++ cmd ++ codes ": " ++ 3 ∷ codes "01")) s
            else s,
        false,
      )
      else (arg ∷ args, s1, ok)

  unfoldable pub extract_params : Message → ℕ → Bool → Bot → List Str × Bot × Bool
  extract_params msg n report s = extract_loop msg report n (good (get_user_params w.hol msg)) s

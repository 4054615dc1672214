-- ===== src/Bot/Exec.antt =====
-- `IrcBot::exec` of src/ircbot.cpp: the commands of the console, of other plugins and of `on_connect`.
-- Text for its stream is written only where there is one, `os`.
use skivvy.Base.{
  ℕ, Bool, true, false, not, Option, some, List, [], ◌∷◌, ◌++◌, if◌then◌else◌, Str, codes, str_eq,
  is_nil, is_empty,
}
use skivvy.Stream.{Stream, good, getline, read_word, skip_ws}
use skivvy.Message.{starts_with_char, mem_str}
use skivvy.Irc
use skivvy.BotDb.{insert_key}
use skivvy.Bot.{
  World, Bot, wrote, dialled, does, and_then, get_prop, get_vec, irc, fc_say, erase_str,
}
use skivvy.Bot.Text.{read_siz}
use skivvy.Bot.Config.{read_config}
use skivvy.Bot.Plugins.{load_plugins, init_plugins}

-- `exec_reply(os, msg)`
unfoldable pub exec_reply : Bool → Str → Bot → Bot
exec_reply os text s = if os then does (wrote text) s else s

unfoldable pub server_host : Bot → Str
server_host s = get_prop (codes "server.host") (codes "localhost") s

unfoldable pub server_port : Bot → ℕ
server_port s = elim (get_vec (codes "server.port") s) [ [] ↦ 6667 | v ∷ vs ↦ read_siz v ]

module _ (w : World) where
  unfoldable pub leave_one : Str → Bot → Bot
  leave_one c s =
      let goodbyes = get_vec (codes "goodbye") s in
      let s1 = if is_nil goodbyes then s else (Irc.say (irc w) c (w.random_element goodbyes) s).0 in
      (Irc.part (irc w) c [] s1).0

  unfoldable pub leave_all : List Str → Bot → Bot
  leave_all [] s = s
  leave_all (c ∷ cs) s = leave_all cs (leave_one c s)

  -- `/die`, and `!die` with the right password
  unfoldable pub die : Bot → Bot
  die s = record (leave_all s.chans s) { done = true }

  unfoldable pub exec_restart : Bot → Bot
  exec_restart s = record (leave_all s.chans s) { restart = true; done = true }

  -- The text behind the channel is read into `line`, which keeps the command where there is none.
  unfoldable pub exec_say : Bool → Str → Stream → Bot → Bot
  exec_say os line is s =
      let (chan, is1) = read_word [] is in
      let chan' = w.hol.trim chan in
      if is_empty chan'
      then exec_reply os (codes "ERROR: /say #channel then some dialogue." ++ 10 ∷ []) s
      else exec_reply os (codes "OK") (fc_say chan' (w.hol.sgl 10 line (skip_ws is1)).0 s)

  unfoldable pub exec_ctcp : Bool → Stream → Bot → Bot
  exec_ctcp os is s =
      let (target, is1) = read_word [] is in
      let (command, is2) = w.hol.sgl 10 [] (skip_ws is1) in
      let (s1, ok) = Irc.ctcp (irc w) target command s in
      if is1.fail
      then exec_reply os (codes "ERROR: ctcp target not found") s
      else if is2.fail
      then exec_reply os (codes "ERROR: ctcp command not found") s
      else if not ok
      then exec_reply os (codes "ERROR: sending ctcp command") s1
      else exec_reply os (codes "OK") s1

  unfoldable pub exec_raw : Stream → Bot → Bot
  exec_raw is s =
      let (raw, is1) = getline 10 [] is in if is1.fail then s else (Irc.send (irc w) raw s).0

  unfoldable pub exec_nick : Stream → Bot → Bot
  exec_nick is s =
      let (n, is1) = read_word [] is in if is1.fail then s else (Irc.nick (irc w) n s).0

  -- A file that cannot be read leaves the bot with no properties.
  unfoldable pub exec_reconfigure : ℕ → Bot → Option Bot
  exec_reconfigure depth s =
      and_then (read_config w depth (record s { props = [] })) (λ r. some r.0)

  unfoldable pub exec_reload : Bot → Bot
  exec_reload s = init_plugins w (load_plugins w s)

  unfoldable pub exec_msg : Stream → Bot → Bot
  exec_msg is s =
      let (to, is1) = read_word [] is in
      let (text, is2) = getline 10 [] (skip_ws is1) in
      if is2.fail then s else (Irc.say (irc w) to text s).0

  unfoldable pub exec_auth : Stream → Bot → Bot
  exec_auth is s =
      let (user, is1) = read_word [] is in
      let (pass, is2) = read_word [] is1 in if is2.fail then s else (Irc.auth (irc w) user pass s).0

  unfoldable pub exec_mode : Stream → Bot → Bot
  exec_mode is s =
      let (n, is1) = read_word [] is in
      let (flags, is2) = getline 10 [] (skip_ws is1) in
      if is2.fail then s else (Irc.user_mode (irc w) n flags s).0

  unfoldable pub exec_whois : Stream → Bot → Bot
  exec_whois is s = (Irc.whois (irc w) w.hol ((read_word [] is).0 ∷ []) s).0

  unfoldable pub exec_me : Bool → Str → Stream → Bot → Bot
  exec_me os line is s =
      let (channel, is1) = read_word [] is in
      let channel' = w.hol.trim channel in
      if starts_with_char (b'#' ∷ []) channel'
      then exec_reply os (codes "OK")
          (Irc.me (irc w) channel' (getline 10 line (skip_ws is1)).0 s).0
      else exec_reply os (codes "ERROR: /me #channel then some dialogue." ++ 10 ∷ []) s

  unfoldable pub exec_join : Bool → Stream → Bot → Bot
  exec_join os is s =
      let (channel, is1) = read_word [] is in
      let (key, is2) = read_word [] is1 in
      let channel' = w.hol.trim channel in
      let (s1, ok) = Irc.join (irc w) channel' key s in
      if starts_with_char (b'#' ∷ []) channel'
      then exec_reply os (codes "OK")
          (if ok then record s1 { chans = insert_key channel' s1.chans } else s1)
      else exec_reply os (codes "ERROR: /join #channel." ++ 10 ∷ []) s

  unfoldable pub exec_part : Bool → Str → Stream → Bot → Bot
  exec_part os line is s =
      let (channel, is1) = read_word [] is in
      let channel' = w.hol.trim channel in
      let text = (getline 10 line (skip_ws is1)).0 in
      let s1 = record s { chans = erase_str channel' s.chans } in
      if starts_with_char (b'#' ∷ []) channel'
      then exec_reply os (codes "OK") (
          if mem_str channel' s.chans
          then (Irc.part (irc w) channel' (w.hol.trim text) s1).0
          else s)
      else exec_reply os (codes "ERROR: /part #channel [message]." ++ 10 ∷ []) s

  unfoldable pub exec_ping : Bool → Stream → Bot → Bot
  exec_ping os is s =
      let (s1, ok) = Irc.ping (irc w) (getline 10 [] is).0 s in
      if not ok
      then exec_reply os (codes "OK") s1
      else exec_reply os (codes "ERROR: Ping failure." ++ 10 ∷ []) s1

  -- `irc->connect(host, port)`
  unfoldable pub connect : Str → ℕ → Bot → Bot × Bool
  connect host port s = (does (dialled host port) s, w.connects host port)

  unfoldable pub exec_reconnect : Bool → Bot → Bot
  exec_reconnect os s =
      let (s1, ok) = connect (server_host s) (server_port s) s in
      if ok
      then exec_reply os (codes "OK") s1
      else exec_reply os (codes "ERROR: Unable to reconnect." ++ 10 ∷ []) s1

  -- The branches on the command; `line` is the whole text.
  unfoldable pub exec_command : ℕ → Bool → Str → Str → Stream → Bot → Option Bot
  exec_command depth os cmd line is s =
      if str_eq cmd (codes "/say")
      then some (exec_say os line is s)
      else if str_eq cmd (codes "/nop")
      then some s
      else if str_eq cmd (codes "/ctcp")
      then some (exec_ctcp os is s)
      else if str_eq cmd (codes "/raw")
      then some (exec_raw is s)
      else if str_eq cmd (codes "/nick")
      then some (exec_nick is s)
      else if str_eq cmd (codes "/botnick")
      then some (exec_reply os s.nick s)
      else if str_eq cmd (codes "/die")
      then some (die s)
      else if str_eq cmd (codes "/restart")
      then some (exec_restart s)
      else if str_eq cmd (codes "/reconfigure")
      then exec_reconfigure depth s
      else if str_eq cmd (codes "/reload")
      then some (exec_reload s)
      else if str_eq cmd (codes "/msg")
      then some (exec_msg is s)
      else if str_eq cmd (codes "/auth")
      then some (exec_auth is s)
      else if str_eq cmd (codes "/mode")
      then some (exec_mode is s)
      else if str_eq cmd (codes "/whois")
      then some (exec_whois is s)
      else if str_eq cmd (codes "/me")
      then some (exec_me os line is s)
      else if str_eq cmd (codes "/join")
      then some (exec_join os is s)
      else if str_eq cmd (codes "/part")
      then some (exec_part os line is s)
      else if str_eq cmd (codes "/ping")
      then some (exec_ping os is s)
      else if str_eq cmd (codes "/reconnect")
      then some (exec_reconnect os s)
      else some (exec_reply os (codes "ERROR: Unknown command." ++ 10 ∷ []) s)

  -- `exec(cmd, os)`
  unfoldable pub exec : ℕ → Bool → Str → Bot → Option Bot
  exec depth os line s =
      let (cmd, is) = read_word [] (good line) in
      if starts_with_char (b'/' ∷ []) line
      then exec_command depth os (w.hol.lower cmd) line (skip_ws is) s
      else some (exec_reply os (codes "ERROR: Commands begin with /." ++ 10 ∷ []) s)

  -- The loop over `on_connect`.
  unfoldable pub exec_all : ℕ → List Str → Bot → Option Bot
  exec_all depth [] s = some s
  exec_all depth (l ∷ ls) s =
      and_then (exec depth false (w.hol.replace_all l (codes "$me") s.nick) s) (exec_all depth ls)

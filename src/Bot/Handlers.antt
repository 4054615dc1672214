-- ===== src/Bot/Handlers.antt =====
-- What the message loop of src/ircbot.cpp does for each command of the server.
use skivvy.Base.{
  ℕ, zero, suc, true, false, ◌&&◌, ◌||◌, Option, none, some, List, [], ◌∷◌, ◌++◌, ◌==◌,
  if◌then◌else◌, Str, codes, str_eq, get_elem?, length,
}
use skivvy.Stream.{Stream, good, read_word}
use skivvy.Message.{Message, get_nickname, get_params, get_to, get_trailing, mem_str}
use skivvy.Irc
use skivvy.Store.{StrVecMap, update}
use skivvy.Store.Backup
use skivvy.BotDb.{insert_key}
use skivvy.Bot.{World, Bot, and_then, get_vec, set_of, irc, official_join}
use skivvy.Bot.Exec.{exec_all}
use skivvy.Bot.Builtins.{privmsg}

-- `while(iss >> nick)`, on fuel above the bytes that are left
words : ℕ → Stream → List Str
words zero is = []
words (suc fuel) is =
    let (word, is1) = read_word [] is in
    let rest = words fuel is1 in if is1.fail then [] else word ∷ rest

-- A name without the sign of an operator or a voiced user.
abbrev pub bare_nick : Str → Str
bare_nick [] = []
bare_nick (c ∷ n) = if c == b'@' || c == b'+' then n else c ∷ n

unfoldable pub add_names : Str → List Str → StrVecMap → StrVecMap
add_names chan [] m = m
add_names chan (n ∷ ns) m = add_names chan ns (update false chan (insert_key (bare_nick n)) m)

abbrev param : ℕ → List Str → Str
param i ps = elim (get_elem? ps i) [ none ↦ [] | some p ↦ p ]

-- `store->get_set(k)`
abbrev store_set : Str → Bot → List Str × Bot
store_set k s =
    let (vs, store') = Backup.get_vec k s.store in (set_of vs, record s { store = store' })

module _ (w : World) where
  abbrev join_all : List Str → Bot → Bot
  join_all [] s = s
  join_all (c ∷ cs) s = join_all cs (official_join w c s)

  -- `RPL_WELCOME`
  unfoldable pub welcome : ℕ → Message → Bot → Option Bot
  welcome depth msg s =
      let s1 = record s { nick = get_to msg } in
      and_then (exec_all w depth (get_vec (codes "on_connect") s1) s1) (λ s2.
        let s3 = join_all (get_vec (codes "join") s2) s2 in
        let (invited, s4) = store_set (codes "invite") s3 in
        some (record (join_all invited s4) { registered = true }))

  -- `RPL_NAMREPLY`
  unfoldable pub name_reply : Message → Bot → Bot
  unfolding words
  name_reply msg s =
      let text = get_trailing msg in
      record s {
        nicks =
            add_names (param 2 (get_params msg)) (words (suc (length text)) (good text)) s.nicks;
      }

  -- `ERR_NICKNAMEINUSE`
  unfoldable pub nickname_in_use : Bot → Bot
  nickname_in_use s = elim (get_elem? s.info_nicks s.nick_number) [
    | some n ↦
        let s1 = (Irc.nick (irc w) n (record s { nick_number = suc s.nick_number })).0 in
        (Irc.user (irc w) s1.info_user s1.info_mode s1.info_real s1).0
    | none ↦ record s { done = true }
  ]

  -- `INVITE`
  unfoldable pub invite : Message → Bot → Bot
  invite msg s =
      let who = param 0 (get_params msg) in
      let chan = param 1 (get_params msg) in
      let s1 = official_join w chan s in
      let s2 = (Irc.say (irc w) chan (codes "I was invited by " ++ get_nickname msg) s1).0 in
      let (invited, s3) = store_set (codes "invite") s2 in
      if mem_str chan (get_vec (codes "part") s)
      then s
      else if str_eq who s.nick
      then (if mem_str chan invited
          then s3
          else record s3 { store = (Backup.add (codes "invite") chan s3.store).0 })
      else s

  -- `JOIN`
  unfoldable pub joined : Message → Bot → Bot
  joined msg s =
      let who = get_nickname msg in
      elim (get_params msg) [
        | [] ↦ s
        | chan ∷ ps ↦
            if str_eq who s.nick && mem_str chan (get_vec (codes "part") s)
            then (Irc.part (irc w) chan (codes "Not authorized for this channel.") s).0
            else record s {
              nicks =
                  update false chan
                    (λ known. if str_eq who s.nick then known else insert_key who known) s.nicks;
            }
      ]

  -- `NICK`
  unfoldable pub nick_change : Message → Bot → Bot
  nick_change msg s =
      if str_eq (get_nickname msg) s.nick then record s { nick = get_trailing msg } else s

  -- The branches on the command of a message.
  unfoldable pub handle : ℕ → ℕ → Message → Bot → Option Bot
  handle depth uptime msg s =
      if str_eq msg.command (codes "END_OF_TEST")
      then some (record s { done = true })
      else if str_eq msg.command (codes "PING")
      then some (Irc.pong (irc w) (get_trailing msg) s).0
      else if str_eq msg.command (codes "PONG")
      then some (record s { pinger_info = get_trailing msg })
      else if str_eq msg.command (codes "001")
      then welcome depth msg s
      else if str_eq msg.command (codes "353")
      then some (name_reply msg s)
      else if str_eq msg.command (codes "433")
      then some (nickname_in_use s)
      else if str_eq msg.command (codes "INVITE")
      then some (invite msg s)
      else if str_eq msg.command (codes "JOIN")
      then some (joined msg s)
      else if str_eq msg.command (codes "NICK")
      then some (nick_change msg s)
      else if str_eq msg.command (codes "PRIVMSG")
      then privmsg w depth uptime msg s
      else some s

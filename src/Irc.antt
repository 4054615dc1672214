-- ===== src/Irc.antt =====
-- src/IrcServer.cpp: the commands that the bot sends, and what writes them out. A command
-- goes to the virtual `send_unlogged`, which is the parameter of `BaseIrcServer`'s methods.
pub mod Relay
pub mod Wire
pub mod Reply
mod Tests
use skivvy.Base.{
  ℕ, Bool, true, false, not, ◌&&◌, Option, none, some, List, [], ◌∷◌, ◌++◌, ltb, ◌==◌,
  if◌then◌else◌, Str, codes, take, drop, find_char, is_empty, length,
}
use skivvy.Hol.{Hol}
use skivvy.Stream.{Stream, getline}
use skivvy.Message.Parse.{crlf}
use skivvy.Message.{Message, get_to, get_nick, starts_with_char}

-- `msg.prefix.substr(0, msg.prefix.find("!"))`, the whole prefix where there is no `!`
unfoldable pub sender : Message → Str
sender msg = elim (find_char b'!' msg.prefix) [ none ↦ msg.prefix | some pos ↦ take pos msg.prefix ]

module _ {ℓ} {S : Type ℓ} (send_unlogged : Str → S → S × Bool) where
  unfoldable pub send : Str → S → S × Bool
  send cmd s = send_unlogged cmd s

  unfoldable pub pass : Str → S → S × Bool
  pass pwd s = if is_empty pwd then send (codes "PASS none") s else send (codes "PASS " ++ pwd) s

  unfoldable pub nick : Str → S → S × Bool
  nick n s = send (codes "NICK " ++ n) s

  unfoldable pub user : Str → Str → Str → S → S × Bool
  user u m r s = send (codes "USER " ++ u ++ b' ' ∷ m ++ codes " * :" ++ r) s

  unfoldable pub join : Str → Str → S → S × Bool
  join channel key s = send (codes "JOIN " ++ channel ++ b' ' ∷ key) s

  unfoldable pub part : Str → Str → S → S × Bool
  part channel text s = send (codes "PART " ++ channel ++ b' ' ∷ text) s

  unfoldable pub ping : Str → S → S × Bool
  ping info s = send_unlogged (codes "PING " ++ info) s

  unfoldable pub pong : Str → S → S × Bool
  pong info s = send_unlogged (codes "PONG " ++ info) s

  unfoldable pub say : Str → Str → S → S × Bool
  say to text s = send (codes "PRIVMSG " ++ to ++ b' ' ∷ b':' ∷ text) s

  -- `ctcp_escape` returns its argument.
  unfoldable pub ctcp : Str → Str → S → S × Bool
  ctcp to text s = send (codes "PRIVMSG " ++ (to ++ b' ' ∷ b':' ∷ 1 ∷ (text ++ 1 ∷ []))) s

  unfoldable pub notice : Str → Str → S → S × Bool
  notice to text s = send (codes "NOTICE " ++ to ++ b' ' ∷ b':' ∷ text) s

  -- A `str_set` is the list of its members in order.
  unfoldable pub whois : Hol → List Str → S → S × Bool
  whois h masks s = send (codes "WHOIS " ++ h.join masks (b',' ∷ [])) s

  unfoldable pub quit : Str → S → S × Bool
  quit reason s = send (codes "QUIT :" ++ reason) s

  unfoldable pub kick : Hol → List Str → List Str → Str → S → S × Bool
  kick h chans users comment s =
      let cmd = codes "KICK " ++ h.join chans (b',' ∷ []) in
      let cmd' = cmd ++ b' ' ∷ h.join users (b',' ∷ []) in send (cmd' ++ b' ' ∷ b':' ∷ comment) s

  unfoldable pub auth : Str → Str → S → S × Bool
  auth user pass s = send (codes "AUTH " ++ user ++ b' ' ∷ pass) s

  unfoldable pub me : Str → Str → S → S × Bool
  me to text s = say to (1 ∷ (codes "ACTION " ++ (text ++ 1 ∷ []))) s

  unfoldable pub query : Str → S → S × Bool
  query nick s = send (codes "QUERY " ++ nick) s

  unfoldable pub mode : Str → Str → Str → S → S × Bool
  mode chan flags nick s = send (codes "MODE " ++ chan ++ b' ' ∷ flags ++ b' ' ∷ nick) s

  -- `mode(nick, mode)`
  unfoldable pub user_mode : Str → Str → S → S × Bool
  user_mode nick flags s = send (codes "MODE " ++ nick ++ b' ' ∷ flags) s

  unfoldable pub reply : Message → Str → S → S × Bool
  reply msg text s =
      let from = if is_empty msg.prefix then [] else sender msg in
      if starts_with_char (b'#' ∷ []) (get_to msg) then say (get_to msg) text s else say from text s

  unfoldable pub reply_pm : Message → Str → S → S × Bool
  reply_pm msg text s = say (get_nick msg) text s

  unfoldable pub reply_notice : Message → Str → S → S × Bool
  reply_notice msg text s =
      let from = if is_empty msg.prefix then [] else sender msg in
      if starts_with_char (b'#' ∷ []) (get_to msg)
      then notice (get_to msg) text s
      else notice from text s

  unfoldable pub reply_pm_notice : Message → Str → S → S × Bool
  reply_pm_notice msg text s = notice (get_nick msg) text s

-- `TestIrcServer`: the text in its two files, and whether each stream is good.
pub record TestServer : Type 0 where
  pub ifs : Stream
  pub written : Str
  pub ofs : Bool

-- A write to a stream that is good: all of the line, or only its first bytes, and then the stream fails.
abbrev write_line : Option ℕ → Str → TestServer → TestServer
write_line none line s = record s { written = s.written ++ line }
write_line (some n) line s = record s { written = s.written ++ take n line; ofs = false }

-- `send_unlogged(cmd)`, where the write fails behind that many bytes, or does not fail.
unfoldable pub test_send_unlogged : Option ℕ → Str → TestServer → TestServer × Bool
test_send_unlogged failed cmd s =
    let s' = if s.ofs then write_line failed (take 510 cmd ++ crlf) s else s in (s', s'.ofs)

unfoldable pub test_receive : Str → TestServer → Str × TestServer × Bool
test_receive line s =
    let (line', ifs') = getline 10 line s.ifs in (line', record s { ifs = ifs' }, not ifs'.fail)

-- The loop of `RemoteIrcServer::send_unlogged`, at what the calls of `write_some` answer: how many
-- bytes were written, and whether there was an error. The bytes that were sent, the result, and the
-- answers not used; there is no result while no answer has come.
unfoldable pub write_loop : List (ℕ × Bool) → Str → Str × Option Bool × List (ℕ × Bool)
write_loop [] buf = ([], none, [])
write_loop ((n, ec) ∷ answers) buf =
    let (sent, result, left) = write_loop answers (drop n buf) in
    if ltb n (length buf)
    then if ec then (take n buf, some false, answers) else (take n buf ++ sent, result, left)
    else (take n buf, some true, answers)

unfoldable pub remote_send_unlogged : List (ℕ × Bool) → Str → Str × Option Bool × List (ℕ × Bool)
remote_send_unlogged answers cmd = write_loop answers (cmd ++ crlf)

-- The loop of `RemoteIrcServer::receive`, at the chunks that the calls of `read_some` return, at most
-- 1024 bytes each, and whether there was an error: the line, the result, and the chunks not read.
unfoldable pub read_loop : List (Str × Bool) → Str → Str × Option Bool × List (Str × Bool)
read_loop [] line = (line, none, [])
read_loop ((chunk, ec) ∷ chunks) line =
    let rest = read_loop chunks (line ++ chunk) in
    if is_empty chunk
    then (line, some (not ec), chunks)
    else if ltb (length chunk) 1024
    then (line ++ chunk, some (not ec), chunks)
    else rest

unfoldable pub remote_receive : List (Str × Bool) → Str × Option Bool × List (Str × Bool)
remote_receive chunks = read_loop chunks []

-- ===== src/Bot/Loop.antt =====
-- `IrcBot::init` and `IrcBot::pinger` of src/ircbot.cpp: how the bot starts, its message loop, and
-- how it connects and pings. The two threads are sequences of the steps below.
use skivvy.Base.{
  ℕ, suc, Bool, true, false, not, ◌&&◌, ◌||◌, Option, none, some, List, [], ◌∷◌, ◌++◌, ltb,
  if◌then◌else◌, Str, codes, str_eq, is_nil, is_empty, get_elem?,
}
use skivvy.Message.{empty, parse}
use skivvy.Irc
use skivvy.Flood
use skivvy.Store.Backup
use skivvy.Plugin.{dispatch_msgevent}
use skivvy.Bot.{
  World, Bot, Effect, closed, called, monitored, does, and_then, have, get_prop, get_bool, get_vec,
  irc, locate_config_file,
}
use skivvy.Bot.Text.{read_siz, read_int}
use skivvy.Bot.Config.{read_config}
use skivvy.Bot.Plugins.{load_plugins, init_plugins}
use skivvy.Bot.Exec.{connect, server_host, server_port}
use skivvy.Bot.Handlers.{handle}

-- A number among the properties, `get(s, dflt)` at a `siz`.
unfoldable pub get_siz : Str → ℕ → Bot → ℕ
get_siz k dflt s = elim (get_vec k s) [ [] ↦ dflt | v ∷ vs ↦ read_siz v ]

-- `const siz retries = get<int>(PROP_SERVER_RETRIES, 10);`
unfoldable pub get_retries : Bot → ℕ
get_retries s = elim (get_vec (codes "server.retries") s) [ [] ↦ 10 | v ∷ vs ↦ read_int v ]

unfoldable pub test_mode : Bot → Bool
test_mode s = get_bool (codes "irc.test.mode") false s

-- How `init` goes on behind its preparations.
pub data Prepared : Type 0 where
  -- it returns false
  refused : Bot → Prepared
  -- it throws, where SSL is asked for
  threw : Bot → Prepared
  -- it awaits the connection
  ready : Bot → Prepared

abbrev pub call_all : (ℕ → Effect) → List ℕ → Bot → Bot
call_all e [] s = s
call_all e (f ∷ fs) s = call_all e fs (does (e f) s)

-- What `receive` leaves in `line`; where it fails, `lost` has what the pinger does until the bot is
-- connected again or done.
pub data Input : Type 0 where
  received : Str → Input
  lost : Str → (Bot → Bot) → Input

module _ (w : World) where
  -- The times of the flood controller, before the configuration is read.
  unfoldable pub flood_times : Bot → Bot
  flood_times s =
      let s1 =
        if have (codes "flood.poll.time") s
        then record s {
          fc = Flood.set_time_between_checks (get_siz (codes "flood.poll.time") 300 s) s.fc;
        }
        else s in
      if have (codes "flood.event.time") s1
      then record s1 {
        fc = Flood.set_time_between_checks (get_siz (codes "flood.event.time") 1600 s1) s1.fc;
      }
      else s1

  unfoldable pub choose_config : Str → Bot → Bot
  choose_config file s =
      let dflt = w.getenv (codes "HOME") ++ codes "/.skivvy/skivvy.conf" in
      record s {
        configfile =
            if is_empty file then dflt else elim (w.file file) [ none ↦ dflt | some text ↦ file ];
      }

  -- `store = std::make_unique<BackupStore>(getf(...))`
  unfoldable pub open_bot_store : Bot → Bot
  open_bot_store s =
      let path = locate_config_file w (get_prop (codes "store.file") (codes "store.txt") s) s in
      record s { store = (Backup.open_store (w.file path) (w.writable path)).0 }

  -- `init` behind the configuration
  unfoldable pub prepare_bot : Bot → Prepared
  prepare_bot s =
      let s1 = open_bot_store s in
      let s2 =
        if test_mode s1
        then (connect w (get_prop (codes "irc.test.host") (codes "test-host") s1)
            (get_siz (codes "irc.test.port") 0 s1) s1).0
        else s1 in
      let s3 = load_plugins w s2 in
      let s4 = init_plugins w (record s3 { fc = Flood.start s3.fc }) in
      if not (test_mode s1) && get_bool (codes "server.ssl") false s1
      then threw s1
      else if not (have (codes "server.host") s3) || is_nil s3.info_nicks
      then refused s3
      else ready (if test_mode s4 then record s4 { connected = true } else s4)

  -- `init(config_file)` up to its wait for the connection
  unfoldable pub prepare : ℕ → Str → Bot → Option Prepared
  prepare depth file s =
      and_then (read_config w depth (choose_config file (flood_times s)))
        (λ r. let (s1, ok) = r in some (if ok then prepare_bot s1 else refused s1))

  -- A line that was received: waiting functions, monitors, and the branches on the command.
  unfoldable pub process : ℕ → ℕ → ℕ → Str → Bot → Option Bot
  process depth now uptime line s =
      let text = w.hol.trim line in
      let (ok, msg) = parse w.hol empty text now in
      let (fs, events) = dispatch_msgevent now msg.command s.msgevents in
      let s1 = call_all (λ f. called f msg) fs (record s { msgevents = events }) in
      let s2 = call_all (λ m. monitored m msg) s.monitors s1 in
      if is_empty text || not ok then some s else handle w depth uptime msg s2

  -- One round of the message loop, begun where the bot is not done. The test of `done` behind a line that
  -- was received looks at what other threads do meanwhile, and is the one that `main_loop` makes next.
  unfoldable pub loop_round : ℕ → ℕ → ℕ → Input → Bot → Option Bot
  loop_round depth now uptime (received line) s = process depth now uptime line s
  loop_round depth now uptime (lost line waits) s =
      let s1 = does closed s in
      let s2 = waits (record s1 { connected = false; registered = false }) in
      if test_mode s1
      then some (record s1 { done = true })
      else if s2.done
      then some s2
      else process depth now uptime line s2

  -- `while(!done)`, at what is received and the times of it.
  unfoldable pub main_loop : ℕ → List (ℕ × ℕ × Input) → Bot → Option Bot
  main_loop depth [] s = some s
  main_loop depth ((now, uptime, input) ∷ rest) s =
      let next = and_then (loop_round depth now uptime input s) (main_loop depth rest) in
      if s.done then some s else next

  -- The pinger

  -- The loop that connects, at what the calls of `connect` answer: the attempts, and the answers
  -- that are left. It waits while there is no answer.
  unfoldable pub connect_loop : Str → ℕ → ℕ → List Bool → ℕ → Bot → Option (Bot × ℕ)
  connect_loop host port retries [] attempt s = if s.done then some (s, attempt) else none
  connect_loop host port retries (ok ∷ answers) attempt s =
      let s1 = (connect w host port s).0 in
      let next = connect_loop host port retries answers (suc attempt) s1 in
      if s.done
      then some (s, attempt)
      else if ok
      then some (s1, attempt)
      else if ltb attempt retries
      then next
      else some (s1, attempt)

  -- The next nick; there is no result where `info.nicks` has no such element.
  unfoldable pub next_nick : Bot → Option Bot
  next_nick s = elim (get_elem? s.info_nicks s.nick_number) [
    | none ↦ none
    | some n ↦
        let s1 = (Irc.nick (irc w) n (record s { nick_number = suc s.nick_number })).0 in
        some (Irc.user (irc w) s1.info_user s1.info_mode s1.info_real s1).0
  ]

  unfoldable pub sign_on : Bot → Option Bot
  sign_on s =
      let s1 = record s { connected = true; registered = false } in
      next_nick (Irc.pass (irc w) (get_prop (codes "server.password") [] s1) s1).0

  -- The first part of a round of `pinger`, up to its wait for the registration. The answers are those of
  -- `connect`: a `TestIrcServer` answers false where a file cannot be opened; a `RemoteIrcServer` throws
  -- where a connection is refused, and the answers end in front of that call.
  unfoldable pub pinger_connect : List Bool → Bot → Option Bot
  pinger_connect answers s =
      let retries = get_retries s in
      and_then (connect_loop (server_host s) (server_port s) retries answers 0 s) (λ r.
        let (s1, attempt) = r in
        let s2 = if ltb attempt retries then s1 else record s1 { done = true } in
        if s2.done then some s2 else sign_on s2)

  -- A ping: sent, and looked at three minutes later, when `pinger_info` has what came back.
  unfoldable pub send_ping : Str → Bot → Bot
  send_ping info s = (Irc.ping (irc w) info s).0

  unfoldable pub note_ping : Str → Bot → Bot
  note_ping info s =
      if str_eq s.pinger_info info
      then record s { connected = true }
      else record s { connected = false; registered = false; nick_number = 0 }

  unfoldable pub regain_nick : Bot → Bot
  regain_nick s = elim s.info_nicks [
    | [] ↦ s
    | primary ∷ others ↦
        if not (is_nil others) && not (str_eq s.nick primary)
        then (Irc.nick (irc w) primary (record s { nick_number = 1 })).0
        else s
  ]

  unfoldable pub check_ping : Str → Bot → Bot
  check_ping info s = regain_nick (note_ping info s)

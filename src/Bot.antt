-- ===== src/Bot.antt =====
-- src/ircbot.cpp and src/include/skivvy/ircbot.h: the bot. Its state holds the flood controller and
-- the store of the other modules; what it does to the world is the list `out` of effects, in order.
-- A reply is queued as the command that it will send: the queued function sends nothing else.
pub mod Config
pub mod Text
pub mod Plugins
pub mod Access
pub mod Exec
pub mod Builtins
pub mod Handlers
pub mod Loop
pub mod Aliases
pub mod Allowed
pub mod Granted
pub mod Guarded
pub mod Strings
pub mod Unique
pub mod SignOn
pub mod Reconnect
pub mod SettingLine
pub mod Settings
pub mod Answers
pub mod Replies
mod Tests
use skivvy.Base.{
  ℕ, ◌-◌, Bool, true, false, not, ◌&&◌, Option, none, some, List, [], ◌∷◌, ◌++◌, ◌==◌,
  if◌then◌else◌, Str, codes, is_empty, is_nil, str_eq, length,
}
use skivvy.Hol.{Hol, is_prefix}
use skivvy.Stream.{Stream, skip_space}
use skivvy.Message.{Message, get_to, get_user_cmd}
use skivvy.Irc.{say, join, reply, reply_pm, reply_notice, reply_pm_notice}
use skivvy.Irc.Relay.{last}
use skivvy.Flood
use skivvy.Flood.{Flood}
use skivvy.Store.{StrVecMap, at, contains, update}
use skivvy.Store.Backup.{Backup}
use skivvy.BotDb.{insert_key}
use skivvy.Plugin.{MsgEvent}

-- What the bot knows of a plugin: the answers of its virtual functions, and itself as a monitor.
pub record Plugin : Type 0 where
  pub id : Str
  pub name : Str
  pub version : Str
  pub commands : List Str
  pub help : Str → Str
  pub monitor : Option ℕ

-- `chan_prefix`
pub record ChanPrefix : Type 0 where
  pub plugin : Str
  pub prefix : Str

pub data Effect : Type 0 where
  -- a command handed to the server
  sent : Str → Effect
  -- text for the stream of `exec`
  wrote : Str → Effect
  -- a plugin runs a command
  ran : Str → Str → Message → Effect
  -- a waiting function and a monitor are given a message
  called : ℕ → Message → Effect
  monitored : ℕ → Message → Effect
  -- a plugin is initialised and closed down
  started : Str → Effect
  exited : Str → Effect
  -- the connection is opened and closed
  dialled : Str → ℕ → Effect
  closed : Effect

-- What stands outside the repository: the library hol, the C library, the file system, the server, and
-- the plugins' files.
pub record World : Type 0 where
  pub hol : Hol
  -- `hol::split_fold(s, sep)`
  pub split_fold : Str → Str → List Str
  -- `hol::split_fold(s)`
  pub split_words : Str → List Str
  -- `hol::random_element(v)`
  pub random_element : List Str → Str
  -- `hol::extract_delimited_text(s, d1, d2, out, pos)`: the text, and the position behind it
  pub extract : Str → Str → Str → ℕ → Option (Str × ℕ)
  -- `fnmatch(w, s, FNM_EXTMATCH) == 0`
  pub wild_match : Str → Str → Bool
  -- at a variable that is set
  pub getenv : Str → Str
  -- the text of a file that can be read
  pub file : Str → Option Str
  -- whether a file can be written
  pub writable : Str → Bool
  -- whether the server takes a command
  pub accepts : Str → Bool
  -- `irc->connect(host, port)`
  pub connects : Str → ℕ → Bool
  -- the files of a directory, and the plugin that a file makes
  pub ls : Str → Option (List Str)
  pub factory : Str → Option Plugin
  -- what `init()` of a plugin returns
  pub starts : Plugin → Bool
  -- the version that the build gives
  pub version : Str

pub record Bot : Type 0 where
  pub props : StrVecMap
  pub nick : Str
  pub nick_number : ℕ
  pub info_nicks : List Str
  pub info_user : Str
  pub info_mode : Str
  pub info_real : Str
  pub chans : List Str
  pub nicks : StrVecMap
  pub done : Bool
  pub connected : Bool
  pub registered : Bool
  pub restart : Bool
  pub debug : Bool
  pub pinger_info : Str
  pub configfile : Str
  pub fc : Flood Str
  pub store : Backup
  pub plugins : List Plugin
  pub commands : List (Str × Plugin)
  pub chan_access : List (Str × List ChanPrefix)
  pub msgevents : List (Str × List (MsgEvent ℕ))
  pub monitors : List ℕ
  pub out : List Effect

unfoldable pub erase_str : Str → List Str → List Str
erase_str k [] = []
erase_str k (j ∷ ks) = let rest = erase_str k ks in if str_eq j k then rest else j ∷ rest

abbrev pub and_then {ℓ κ} : {A : Type ℓ} {B : Type κ} → Option A → (A → Option B) → Option B
and_then none f = none
and_then (some a) f = f a

-- An effect behind the others.
abbrev pub does : Effect → Bot → Bot
does e s = record s { out = s.out ++ e ∷ [] }

-- the properties

-- `have(s)`
unfoldable pub have : Str → Bot → Bool
have k s = contains false k s.props

unfoldable pub get_vec : Str → Bot → List Str
get_vec k s = at false k s.props

abbrev pub head_or : Str → List Str → Str
head_or dflt [] = dflt
head_or dflt (v ∷ vs) = v

-- `get(s, dflt)`
unfoldable pub get_prop : Str → Str → Bot → Str
get_prop k dflt s = head_or dflt (get_vec k s)

-- `std::boolalpha >> t` on a value
abbrev pub reads_true : Str → Bool
reads_true v = is_prefix (codes "true") (skip_space v)

-- `get(s, dflt)` at a Boolean
unfoldable pub get_bool : Str → Bool → Bot → Bool
get_bool k dflt s = elim (get_vec k s) [ [] ↦ dflt | v ∷ vs ↦ reads_true v ]

-- `str_set{v.begin(), v.end()}`, in the order of the strings
unfoldable pub set_of : List Str → List Str
set_of [] = []
set_of (v ∷ vs) = insert_key v (set_of vs)

-- `get_set(s)`
unfoldable pub get_set : Str → Bot → List Str
get_set k s = set_of (get_vec k s)

-- `get_set(s, dflt)`
unfoldable pub get_set_or : Str → Str → Bot → List Str
get_set_or k dflt s = let r = get_set k s in if is_nil r then dflt ∷ [] else r

abbrev keys_matching : (Str → Bool) → StrVecMap → List Str
keys_matching p [] = []
keys_matching p ((k, vs) ∷ m) = let rest = keys_matching p m in if p k then k ∷ rest else rest

-- `locate_config_dir()` and `locate_config_file(name)`; the environment has HOME or not, and then
-- `getenv` is empty here.
unfoldable pub locate_config_dir : World → Bot → Str
locate_config_dir w s = get_prop (codes "home") (w.getenv (codes "HOME") ++ codes "/.skivvy") s

unfoldable pub locate_config_file : World → Str → Bot → Str
locate_config_file w [] s = []
locate_config_file w (c ∷ name) s =
    if c == b'/' then c ∷ name else locate_config_dir w s ++ b'/' ∷ (c ∷ name)

module _ (w : World) where
  -- `get_wild_keys(prefix)`
  unfoldable pub get_wild_keys : Str → Bot → List Str
  get_wild_keys prefix s = keys_matching (w.wild_match (prefix ++ b'*' ∷ [])) s.props

  -- The server behind `irc`: `send_unlogged` hands the command over.
  unfoldable pub irc : Str → Bot → Bot × Bool
  irc cmd s = (does (sent cmd) s, w.accepts cmd)

-- flood control: a command is queued under a channel

unfoldable pub fc_send : Str → Str → Bot → Bot
fc_send chan cmd s = record s { fc = (Flood.send chan cmd s.fc).0 }

unfoldable pub fc_say : Str → Str → Bot → Bot
fc_say to text s = fc_send to (say last to text []).0 s

unfoldable pub fc_reply : Message → Str → Bot → Bot
fc_reply msg text s = fc_send (get_to msg) (reply last msg text []).0 s

unfoldable pub fc_reply_pm : Message → Str → Bot → Bot
fc_reply_pm msg text s = fc_send (get_to msg) (reply_pm last msg text []).0 s

unfoldable pub fc_reply_notice : Message → Str → Bot → Bot
fc_reply_notice msg text s = fc_send (get_to msg) (reply_notice last msg text []).0 s

unfoldable pub fc_reply_pm_notice : Message → Str → Bot → Bot
fc_reply_pm_notice msg text s = fc_send (get_to msg) (reply_pm_notice last msg text []).0 s

-- The loops of the help replies; `fc.send` never fails.
unfoldable pub fc_each : (Str → Bot → Bot) → List Str → Bot → Bot
fc_each f [] s = s
fc_each f (l ∷ ls) s = fc_each f ls (f l s)

module _ (w : World) where
  unfoldable pub fc_reply_help : Message → Str → Str → Bot → Bot
  fc_reply_help msg text prefix s =
      fc_each (λ l. fc_reply msg (prefix ++ l)) (w.split_fold text (10 ∷ [])) s

  unfoldable pub fc_reply_pm_help : Message → Str → Str → Bot → Bot
  fc_reply_pm_help msg text prefix s =
      fc_each (λ l. fc_reply_pm msg (prefix ++ l)) (w.split_fold text (10 ∷ [])) s

  unfoldable pub cmd_error : Message → Str → Bool → Bot → Bot × Bool
  cmd_error msg text rv s = (fc_reply msg (get_user_cmd w.hol msg ++ codes ": " ++ text) s, rv)

  unfoldable pub cmd_error_pm : Message → Str → Bool → Bot → Bot × Bool
  cmd_error_pm msg text rv s =
      (fc_reply_pm msg (get_user_cmd w.hol msg ++ codes ": " ++ text) s, rv)

  -- `official_join(channel)`, behind its pause
  unfoldable pub official_join : Str → Bot → Bot
  official_join channel s =
      let (s1, ok) = join (irc w) channel [] s in
      let s2 = record s1 { chans = insert_key channel s1.chans } in
      let s3 =
        if get_bool (codes "join.announce") false s2
        then (say (irc w) channel (codes "IrcBot v" ++ w.version) s2).0
        else s2 in
      let welcomes = get_vec (codes "welcome") s3 in
      let s4 =
        if is_nil welcomes then s3 else (say (irc w) channel (w.random_element welcomes) s3).0 in
      if ok then s4 else s1

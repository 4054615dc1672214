-- ===== src/Message.antt =====
-- src/message.cpp and src/include/skivvy/message.h: the class `message`, its parser and getters.
-- The parameters are read by the module `Params`; `hol` is the parameter `h`.
pub mod Prefix
pub mod Parse
pub mod Channel
mod Tests
use skivvy.Base.{
  ℕ, suc, ◌+◌, ◌-◌, Bool, true, false, not, ◌&&◌, ◌||◌, Option, none, some, List, [], ◌∷◌, ◌++◌,
  ltb, ◌==◌, if◌then◌else◌, Str, codes, str_eq, has_char, find_char, substr, take, drop, is_empty,
  is_alpha, is_alnum, length, get_elem?,
}
use skivvy.Hol.{Hol}
use skivvy.Stream.{Stream, good, clear, set_fail, peek, ignore, read_word}
use skivvy.Params.{Params, getparams}

pub record Message : Type 0 where
  pub line : Str
  pub when : ℕ
  pub prefix : Str
  pub command : Str
  pub params : Str

-- The default constructor, and `clear`.
abbrev pub empty : Message
empty = record { line = []; when = 0; prefix = []; command = []; params = [] }

-- any octet except NUL, CR, LF, " " and "@"
abbrev pub nospcrlfat : Str
nospcrlfat = 0 ∷ b' ' ∷ 13 ∷ 10 ∷ b'@' ∷ 0 ∷ []

-- `CSTRING` counts the NUL behind the literal, so NUL is one of the special bytes.
abbrev pub bnf_special : Str
bnf_special = b'[' ∷ b']' ∷ b'\\' ∷ b'`' ∷ b'_' ∷ b'^' ∷ b'{' ∷ b'|' ∷ b'}' ∷ 0 ∷ []

abbrev pub nick_char : ℕ → Bool
nick_char c = is_alnum c || has_char bnf_special c || c == b'-'

abbrev pub all_chars : (ℕ → Bool) → Str → Bool
all_chars p [] = true
all_chars p (c ∷ s) = p c && all_chars p s

unfoldable pub is_nick : Str → Bool
is_nick [] = false
is_nick (c ∷ s) = (is_alpha c || has_char bnf_special c) && all_chars nick_char (c ∷ s)

unfoldable pub allow_nick : Str → Str
allow_nick nick = if is_nick nick then nick else []

unfoldable pub is_user : Str → Bool
is_user user = all_chars (λ c. not (has_char nospcrlfat c)) user

unfoldable pub allow_user : Str → Str
allow_user user = if is_user user then user else []

abbrev is_some {ℓ} : {A : Type ℓ} → Option A → Bool
is_some none = false
is_some (some a) = true

unfoldable pub get_servername : Message → Str
get_servername m =
    if is_some (find_char b'!' m.prefix) || is_some (find_char b'@' m.prefix) then [] else m.prefix

unfoldable pub get_nickname : Message → Str
get_nickname m = elim (find_char b'!' m.prefix) [
  | some pos ↦ allow_nick (take pos m.prefix)
  | none ↦ elim (find_char b'@' m.prefix) [
    | some pos ↦ allow_nick (take pos m.prefix)
    | none ↦ allow_nick m.prefix
  ]
]

unfoldable pub get_nick : Message → Str
get_nick m = get_nickname m

-- `npos` is below no position.
unfoldable pub get_user : Message → Str
get_user m = elim (find_char b'@' m.prefix) [
  | none ↦ []
  | some end ↦ elim (find_char b'!' m.prefix) [
    | none ↦ []
    | some beg ↦
        if ltb beg end then allow_user (substr m.prefix (beg + 1) (end - (beg + 1))) else []
  ]
]

unfoldable pub get_host : Message → Str
get_host m = elim (find_char b'@' m.prefix) [
  | none ↦ []
  | some pos ↦ if ltb pos (length m.prefix - 1) then drop (pos + 1) m.prefix else []
]

-- `npos + 1` is 0.
unfoldable pub get_userhost : Message → Str
get_userhost m = elim (find_char b'!' m.prefix) [
  | none ↦ m.prefix
  | some pos ↦ drop (pos + 1) m.prefix
]

-- `get_params()`: the trailing parameter counts only if the stream is still true.
unfoldable pub get_params : Message → List Str
get_params m =
    let p = getparams (good m.params) in
    if p.is.fail then p.middles else p.middles ++ p.trailing ∷ []

unfoldable pub get_middles : Message → List Str
get_middles m = (getparams (good m.params)).middles

unfoldable pub get_trailing : Message → Str
get_trailing m = (getparams (good m.params)).trailing

abbrev first_param : List Str → Str
first_param [] = []
first_param (p ∷ ps) = p

unfoldable pub get_to : Message → Str
get_to m = first_param (get_params m)

abbrev pub starts_with_char : Str → Str → Bool
starts_with_char set [] = false
starts_with_char set (c ∷ s) = has_char set c

unfoldable pub from_channel : Message → Bool
from_channel m = starts_with_char (b'#' ∷ []) (first_param (get_params m))

unfoldable pub reply_to : Message → Str
reply_to m = if not (from_channel m) then get_nickname m else get_to m

-- The sets of `chan_params`: which parameter of a command is its channel.
abbrev pub chan_params : List (List Str)
chan_params =
    (codes "PRIVMSG"
      ∷ codes "JOIN"
      ∷ codes "MODE"
      ∷ codes "KICK"
      ∷ codes "PART"
      ∷ codes "TOPIC"
      ∷ [])
    ∷ (codes "332"
        ∷ codes "333"
        ∷ codes "366"
        ∷ codes "404"
        ∷ codes "474"
        ∷ codes "482"
        ∷ codes "INVITE"
        ∷ [])
    ∷ (codes "353" ∷ codes "441" ∷ [])
    ∷ []

abbrev pub chan_start : Str
chan_start = codes "#&+!"

abbrev pub mem_str : Str → List Str → Bool
mem_str s [] = false
mem_str s (t ∷ l) = str_eq t s || mem_str s l

abbrev chan_at : Option Str → Bool → Str → Str
chan_at none counted rest = rest
chan_at (some p) counted rest = if counted && starts_with_char chan_start p then p else rest

-- The loop over `chan_params`, from the index `i`.
chan_loop : List (List Str) → ℕ → Str → List Str → Str
chan_loop [] i command params = []
chan_loop (set ∷ sets) i command params =
    chan_at (get_elem? params i) (mem_str command set) (chan_loop sets (suc i) command params)

unfoldable pub get_chan : Message → Str
unfolding chan_loop
get_chan m = chan_loop chan_params 0 m.command (get_params m)

-- `if(iss.peek() == ':') iss.ignore() >> prefix;`, at what `peek` returned.
read_prefix : Str → Option ℕ → Stream → Str × Stream
read_prefix old none is = (old, is)
read_prefix old (some c) is = if c == b':' then read_word old (ignore is) else (old, is)

module _ (h : Hol) where
  unfoldable pub get_user_cmd : Message → Str
  get_user_cmd m = h.trim (h.sgl b' ' [] (good (get_trailing m))).0

  unfoldable pub get_user_params : Message → Str
  get_user_params m =
      let (skipped, is) = h.sgl b' ' [] (good (get_trailing m)) in
      let (params, is') = h.sgl 10 skipped is in if is'.fail then [] else h.trim params

  parse_line : Message → Str → ℕ → Bool × Message
  parse_line m line now =
      let text = h.trim_right line in
      let (p, is0) = peek (good text) in
      let (prefix, is1) = read_prefix m.prefix p is0 in
      let (command, is2) = read_word m.command is1 in
      let (params, is3) = h.sgl 10 m.params is2 in
      (
        not is3.fail,
        record { line = text; when = now; prefix = prefix; command = command; params = params },
      )

  -- `m.parse(line)` at the time `now`: its result and the message after it.
  unfoldable pub parse : Message → Str → ℕ → Bool × Message
  unfolding parse_line read_prefix
  parse m line now = if is_empty line then (false, m) else parse_line m line now

-- ===== src/Bot/Config.antt =====
-- The configuration file, `load_props` of src/ircbot.cpp. A file may include others and a value of
-- the environment may hold variables, so the reader is recursion on fuel, which bounds how deep files
-- nest and how often a line is replaced; `none` stands for a reader that has not returned.
use skivvy.Base.{
  ℕ, zero, suc, Bool, true, false, not, ◌&&◌, ◌||◌, Option, none, some, List, [], ◌∷◌, ◌++◌, ◌==◌,
  if◌then◌else◌, Str, codes, str_eq, is_empty, has_char,
}
use skivvy.Hol.{is_prefix}
use skivvy.Stream.{good, skip_ws}
use skivvy.Message.{starts_with_char}
use skivvy.Store.{update, lines, lex}
use skivvy.Bot.{World, Bot, and_then}

-- What the reader changes: the bot, the variables in order, and the prefix of the keys.
pub record Loading : Type 0 where
  pub bot : Bot
  pub vars : List (Str × Str)
  pub prefix : Str

-- `vars[key] = val`
unfoldable pub set_var : Str → Str → List (Str × Str) → List (Str × Str)
set_var k v [] = (k, v) ∷ []
set_var k v ((j, u) ∷ m) =
    let rest = set_var k v m in
    if lex k j then (k, v) ∷ (j, u) ∷ m else if lex j k then (j, u) ∷ rest else (j, v) ∷ m

-- `if((pos = line.find("//")) != str::npos) line.erase(pos);`
unfoldable pub cut_comment : Str → Str
cut_comment [] = []
cut_comment (c ∷ s) =
    let rest = cut_comment s in if is_prefix (codes "//") (c ∷ s) then [] else c ∷ rest

abbrev but_last : Str → Str
but_last [] = []
but_last (c ∷ []) = []
but_last (c ∷ d ∷ s) = c ∷ but_last (d ∷ s)

abbrev ends_with : ℕ → Str → Bool
ends_with d [] = false
ends_with d (c ∷ []) = c == d
ends_with d (c ∷ e ∷ s) = ends_with d (e ∷ s)

-- The text between the brackets of a line that begins with `[` and ends with `]`.
unfoldable pub section_name : Str → Option Str
section_name [] = none
section_name (c ∷ s) = if c == b'[' && ends_with b']' (c ∷ s) then some (but_last s) else none

-- `path.substr(0, path.find_last_of('/'))`, empty where there is none
unfoldable pub dir_of : Str → Str
dir_of [] = []
dir_of (c ∷ s) = let rest = dir_of s in if has_char s b'/' then c ∷ rest else []

module _ (w : World) where
  -- `for(auto&& var: vars) replace_all_mute(line, "${" + var.first + "}", var.second);`
  unfoldable pub replace_vars : List (Str × Str) → Str → Str
  replace_vars [] line = line
  replace_vars ((k, v) ∷ vars) line =
      replace_vars vars (w.hol.replace_all line (codes "${" ++ k ++ b'}' ∷ []) v)

  -- The loop over the environment's variables.
  unfoldable pub replace_env : ℕ → Str → ℕ → Option Str
  replace_env zero line pos = none
  replace_env (suc fuel) line pos = elim (w.extract line (codes "${") (codes "}") pos) [
    | none ↦ some line
    | some (var, pos') ↦
        replace_env fuel (w.hol.replace_all line (codes "${" ++ var ++ b'}' ∷ []) (w.getenv var))
          pos'
  ]

  -- `sgl(sgl(siss(s) >> std::ws, key, ':') >> std::ws, val)`, both trimmed
  unfoldable pub key_value : Str → Option (Str × Str)
  key_value s =
      let (key, s1) = w.hol.sgl b':' [] (skip_ws (good s)) in
      let (val, s2) = w.hol.sgl 10 [] (skip_ws s1) in
      if s2.fail then none else some (w.hol.trim key, w.hol.trim val)

  unfoldable pub include_name : Str → Str → Str
  include_name configfile val =
      if starts_with_char (b'/' ∷ []) val
      then val
      else if is_empty (dir_of configfile)
      then val
      else dir_of configfile ++ b'/' ∷ val

  -- The branches on the key; `include` reads the text of another file.
  unfoldable pub set_key : (Str → Loading → Option Loading) → Str → Str → Loading → Option Loading
  set_key include key val st =
      let b = st.bot in
      if str_eq key (codes "nick")
      then some (record st { bot = record b { info_nicks = b.info_nicks ++ val ∷ [] } })
      else if str_eq key (codes "user")
      then some (record st { bot = record b { info_user = val } })
      else if str_eq key (codes "mode")
      then some (record st { bot = record b { info_mode = val } })
      else if str_eq key (codes "real")
      then some (record st { bot = record b { info_real = val } })
      else if str_eq key (codes "include")
      then (if is_empty val then some st else elim (w.file (include_name b.configfile val)) [
        | none ↦ some st
        | some text ↦ include text st
      ])
      else some
          (record st { bot = record b { props = update false key (λ vs. vs ++ val ∷ []) b.props } })

  abbrev with_pair : Option (Str × Str) → Loading → (Str → Str → Option Loading) → Option Loading
  with_pair none st f = some st
  with_pair (some (key, val)) st f = f key val

  -- `include:` is special
  unfoldable pub prefixed_line : Str → Str → Str
  prefixed_line prefix line =
      if not (is_prefix (codes "include:") line) && not (is_empty prefix)
      then prefix ++ b'.' ∷ line
      else line

  -- A line that is no section: a variable or a property.
  unfoldable pub load_pair : (Str → Loading → Option Loading) → Str → Loading → Option Loading
  load_pair include [] st = some st
  load_pair include (c ∷ rest) st =
      if c == b'$'
      then with_pair (key_value rest) st
          (λ key val. some (record st { vars = set_var key val st.vars }))
      else with_pair (key_value (c ∷ rest)) st (λ key val. set_key include key val st)

  -- A line behind the replacements.
  unfoldable pub load_setting : (Str → Loading → Option Loading) → Str → Loading → Option Loading
  load_setting include line st = elim (section_name line) [
    | some name ↦ some (record st { prefix = w.hol.trim name })
    | none ↦ load_pair include (prefixed_line st.prefix line) st
  ]

  unfoldable pub load_props_line :
      ℕ → (Str → Loading → Option Loading) → Str → Loading → Option Loading
  load_props_line fuel include line st =
      let text = w.hol.trim (cut_comment line) in
      if is_empty text || starts_with_char (b'#' ∷ []) text
      then some st
      else elim (replace_env fuel (replace_vars st.vars text) 0) [
        | none ↦ none
        | some full ↦ load_setting include full st
      ]

  unfoldable pub load_props_lines :
      ℕ → (Str → Loading → Option Loading) → List Str → Loading → Option Loading
  load_props_lines fuel include [] st = some st
  load_props_lines fuel include (l ∷ ls) st =
      and_then (load_props_line fuel include l st) (load_props_lines fuel include ls)

  -- `load_props(is, bot, vars, prefix)` on the text of a file
  unfoldable pub load_props : ℕ → Str → Loading → Option Loading
  load_props zero text st = none
  load_props (suc depth) text st = load_props_lines depth (load_props depth) (lines text) st

  -- `std::ifstream(file) >> bot`: the bot, and whether the file could be read
  unfoldable pub read_config : ℕ → Bot → Option (Bot × Bool)
  read_config depth b = elim (w.file b.configfile) [
    | none ↦ some (b, false)
    | some text ↦ elim (load_props depth text (record { bot = b; vars = []; prefix = [] })) [
      | none ↦ none
      | some st ↦ some (st.bot, true)
    ]
  ]

-- ===== src/Colors/Quake.antt =====
-- src/irc.cpp: the text of a game, with a color behind each `^`, as IRC shows it.
use skivvy.Base.{
  true, false, not, ◌-◌, ℕ, ◌%◌, ◌≡◌, Bool, ◌&&◌, ◌||◌, Option, none, some, List, [], ◌∷◌, ◌++◌,
  ltb, leb, ◌==◌, if◌then◌else◌, Str, codes, is_alnum, get_elem?,
}

-- `IRC_BOLD`, `IRC_COLOR` and `IRC_NORMAL`
abbrev pub irc_bold : ℕ
irc_bold = 2

abbrev pub irc_color : ℕ
irc_color = 3

abbrev pub irc_normal : ℕ
irc_normal = 15

-- `oatoirctab` as two digits
abbrev pub oatoirctab : List Str
oatoirctab =
    codes "01"
    ∷ codes "05"
    ∷ codes "03"
    ∷ codes "08"
    ∷ codes "02"
    ∷ codes "12"
    ∷ codes "06"
    ∷ codes "01"
    ∷ []

-- `Q_IsColorString` of the two bytes at the pointer; `isalnum` is that of the C locale.
abbrev is_color : ℕ → ℕ → Bool
is_color c d = c == b'^' && is_alnum d

-- `Q_IsSpecialChar`: a `char` is signed, so that the bytes from 128 are below 32.
abbrev pub is_control : ℕ → Bool
is_control c = ltb c 32 || leb 128 c

abbrev color_digits : Option Str → Str
color_digits none = []
color_digits (some s) = s

-- `oatoirctab[code]` with its leading 0
abbrev pub color_code : ℕ → Str
color_code d = color_digits (get_elem? oatoirctab (d % 8))

abbrev shown_byte : ℕ → ℕ
shown_byte c = if is_control c then b'#' else c

-- `while(*msg)`: the text ends at its first byte 0.
unfoldable pub oa_loop : Str → Str
oa_loop [] = []
oa_loop (c ∷ []) = if c == 0 then [] else shown_byte c ∷ []
oa_loop (c ∷ d ∷ s) =
    let rest = oa_loop (d ∷ s) in
    let behind = oa_loop s in
    if c == 0
    then []
    else if is_color c d
    then irc_normal ∷ irc_color ∷ color_code d ++ behind
    else shown_byte c ∷ rest

-- `oa_to_IRC(msg)`
unfoldable pub oa_to_irc : Str → Str
oa_to_irc msg = irc_bold ∷ oa_loop msg ++ irc_normal ∷ []

-- A client of IRC: a color takes up to two digits, and a comma and a digit behind them begin a
-- background of up to two digits. The numbers are the digits that may still come.
pub data View : Type 0 where
  plain : View
  digits : ℕ → View
  comma : View
  background : ℕ → View

abbrev is_digit : ℕ → Bool
is_digit c = leb b'0' c && leb c b'9'

abbrev next_plain : ℕ → View
next_plain c = if c == irc_color then digits 2 else plain

abbrev out_plain : ℕ → Str
out_plain c = if c == irc_bold || c == irc_normal || c == irc_color then [] else c ∷ []

abbrev next : View → ℕ → View
next plain c = next_plain c
next (digits k) c =
    if is_digit c && ltb 0 k
    then digits (k - 1)
    else if c == b',' && ltb k 2
    then comma
    else next_plain c
next comma c = if is_digit c then background 1 else next_plain c
next (background k) c = if is_digit c && ltb 0 k then background (k - 1) else next_plain c

abbrev out : View → ℕ → Str
out plain c = out_plain c
out (digits k) c =
    if is_digit c && ltb 0 k then [] else if c == b',' && ltb k 2 then [] else out_plain c
out comma c = if is_digit c then [] else b',' ∷ out_plain c
out (background k) c = if is_digit c && ltb 0 k then [] else out_plain c

abbrev last_out : View → Str
last_out plain = []
last_out (digits k) = []
last_out comma = b',' ∷ []
last_out (background k) = []

-- What the client shows of a text.
abbrev pub seen : View → Str → Str
seen v [] = last_out v
seen v (c ∷ s) = out v c ++ seen (next v c) s

-- The text of a game without its colors and its unseen bytes, up to its first byte 0.
abbrev pub game_text : Str → Str
game_text [] = []
game_text (c ∷ []) = if c == 0 then [] else shown_byte c ∷ []
game_text (c ∷ d ∷ s) =
    let rest = game_text (d ∷ s) in
    let behind = game_text s in
    if c == 0 then [] else if is_color c d then behind else shown_byte c ∷ rest

abbrev starts_comma : Str → Bool
starts_comma [] = false
starts_comma (c ∷ s) = c == b','

-- No color code of the text is followed by a comma.
abbrev pub no_comma : Str → Bool
no_comma [] = true
no_comma (c ∷ []) = true
no_comma (c ∷ d ∷ s) =
    let rest = no_comma (d ∷ s) in
    let behind = no_comma s in
    if c == 0 then true else if is_color c d then not (starts_comma s) && behind else rest

abbrev IsPair : Str → Type 0
IsPair s = (a : ℕ) × (b : ℕ) × (s ≡ a ∷ b ∷ []) × (is_digit a ≡ true) × (is_digit b ≡ true)

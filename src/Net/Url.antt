-- ===== src/Net/Url.antt =====
-- src/network.cpp: URLs and HTML entities. A byte is a `char`, which is negative from 128 on.
use skivvy.Base.{
  ℕ, zero, suc, ◌+◌, ◌-◌, ◌/◌, ◌%◌, ◌^◌, Option, none, some, List, [], ◌∷◌, ◌++◌, map, ltb, leb,
  ◌&&◌, if◌then◌else◌, Str, codes, is_alnum, to_lower, length, drop,
}
use skivvy.Hol.{is_prefix}
use skivvy.Store.{lex}

abbrev pub hex_digit : ℕ → ℕ
hex_digit d = if ltb d 10 then 48 + d else 87 + d

unfoldable pub hex_digits : ℕ → ℕ → Str → Str
hex_digits zero n acc = acc
hex_digits (suc fuel) n acc =
    let acc' = hex_digit (n % 16) ∷ acc in
    let more = hex_digits fuel (n / 16) acc' in if ltb n 16 then acc' else more

-- `os << std::hex << n` for an `int`, which has at most eight digits
unfoldable pub hex_text : ℕ → Str
unfolding hex_digits
hex_text n = hex_digits 8 n []

-- `int(c)` for a `char`, as the unsigned number that `std::hex` prints
unfoldable pub as_int : ℕ → ℕ
as_int c = if ltb c 128 then c else 2 ^ 32 + c - 256

unfoldable pub urlencode : Str → Str
urlencode [] = []
urlencode (c ∷ s) =
    let rest = urlencode s in if is_alnum c then c ∷ rest else b'%' ∷ (hex_text (as_int c) ++ rest)

-- `str_map`, in the order of its keys.
abbrev pub StrMap : Type 0
StrMap = List (Str × Str)

-- `m[k] = v`
unfoldable pub put_str : Str → Str → StrMap → StrMap
put_str k v [] = (k, v) ∷ []
put_str k v ((j, u) ∷ m) =
    let rest = put_str k v m in
    if lex k j then (k, v) ∷ (j, u) ∷ m else if lex j k then (j, u) ∷ rest else (j, v) ∷ m

unfoldable pub put_strs : List (Str × Str) → StrMap → StrMap
put_strs [] m = m
put_strs ((k, v) ∷ ps) m = put_strs ps (put_str k v m)

-- `(p = s.find(from)) != npos` and `s.replace(p, from.size(), to)`
unfoldable pub replace_once : Str → Str → Str → Option Str
replace_once from to [] = if is_prefix from [] then some to else none
replace_once from to (c ∷ s) =
    let rest = replace_once from to s in
    if is_prefix from (c ∷ s)
    then some (to ++ drop (length from) (c ∷ s))
    else elim rest [ none ↦ none | some t ↦ some (c ∷ t) ]

-- `while((p = s.find(from)) != npos) s.replace(p, from.size(), to);`
unfoldable pub replace_while : ℕ → Str → Str → Str → Option Str
replace_while zero from to s = none
replace_while (suc fuel) from to s = elim (replace_once from to s) [
  | none ↦ some s
  | some t ↦ replace_while fuel from to t
]

-- The loop over a map. Each replacement makes the text shorter, so its length is fuel enough.
unfoldable pub replace_each : StrMap → Str → Option Str
replace_each [] s = some s
replace_each ((from, to) ∷ m) s = elim (replace_while (suc (length s)) from to s) [
  | none ↦ none
  | some t ↦ replace_each m t
]

abbrev cent : Str
cent = 194 ∷ 162 ∷ []

abbrev pound : Str
pound = 194 ∷ 163 ∷ []

abbrev euro : Str
euro = 226 ∷ 130 ∷ 172 ∷ []

abbrev sect : Str
sect = 194 ∷ 167 ∷ []

abbrev copyright : Str
copyright = 194 ∷ 169 ∷ []

abbrev registered : Str
registered = 194 ∷ 174 ∷ []

abbrev trade : Str
trade = 226 ∷ 132 ∷ 162 ∷ []

-- The entities as the source lists them, in UTF-8.
abbrev pub entity_list : List (Str × Str)
entity_list =
    (codes "&lt;", codes "<")
    ∷ (codes "&#60;", codes ">")
    ∷ (codes "&gt;", codes ">")
    ∷ (codes "&#61;", codes ">")
    ∷ (codes "&nbsp;", codes " ")
    ∷ (codes "&#160;", codes " ")
    ∷ (codes "&amp;", codes "&")
    ∷ (codes "&#38;", codes "&")
    ∷ (codes "&cent;", cent)
    ∷ (codes "&#162;", cent)
    ∷ (codes "&pound;", pound)
    ∷ (codes "&#163;", pound)
    ∷ (codes "&euro;", euro)
    ∷ (codes "&#8364;", euro)
    ∷ (codes "&sect;", sect)
    ∷ (codes "&#167;", sect)
    ∷ (codes "&copy;", copyright)
    ∷ (codes "&#169;", copyright)
    ∷ (codes "&reg;", registered)
    ∷ (codes "&#174;", registered)
    ∷ (codes "&trade;", trade)
    ∷ (codes "&#8482;", trade)
    ∷ (codes "&quot;", 34 ∷ [])
    ∷ []

unfoldable pub ents : StrMap
ents = put_strs entity_list []

unfoldable pub fix_entities : Str → Option Str
fix_entities s = replace_each ents s

abbrev pub to_upper : ℕ → ℕ
to_upper c = if leb b'a' c && leb c b'z' then c - 32 else c

-- `oss.fill('0'); oss << "%" << std::setw(2) << std::hex << i`
unfoldable pub url_code : ℕ → Str
url_code i = b'%' ∷ hex_digit (i / 16) ∷ hex_digit (i % 16) ∷ []

-- `urlism` behind the first `n` rounds of the loop that fills it.
unfoldable pub url_codes : ℕ → StrMap
url_codes zero = []
url_codes (suc i) =
    put_str (map to_upper (url_code i)) (i ∷ [])
      (put_str (map to_lower (url_code i)) (i ∷ []) (url_codes i))

unfoldable pub urldecode : Str → Option Str
urldecode s = replace_each (url_codes 256) s

-- ===== src/Oastats.antt =====
-- src/plugin-oastats.cpp: the month that a user asks the statistics for, and the page that holds them.
-- The clock is a parameter.
pub mod Words
pub mod Bounds
mod Tests
use skivvy.Base.{
  ℕ, zero, suc, ◌+◌, ◌-◌, Bool, true, false, ◌&&◌, ◌||◌, Option, none, some, List, [], ◌∷◌, ◌++◌,
  ltb, ◌==◌, if◌then◌else◌, Str, codes, length,
}
use skivvy.Stream.{Stream, good}
use skivvy.Bot.Text.{to_string, npos, getstring}
use skivvy.Utils.{read_number}
use skivvy.Cal.{get_month_str}

-- A year, and a month that counts from 0.
pub record Period : Type 0 where
  pub year : ℕ
  pub month : ℕ

abbrev pub set_year : Option ℕ → Period → Option Period
set_year none p = none
set_year (some y) p = if ltb y 1000 || ltb 9999 y then none else some (record p { year = y })

abbrev pub set_month : Option ℕ → Period → Option Period
set_month none p = none
set_month (some m) p = if ltb m 1 || ltb 12 m then none else some (record p { month = m - 1 })

-- A round of the loop: a year `@2011`, a month `@11`, or another word; `none` is `return false`.
unfoldable pub read_param : Str → Period → Option Period
read_param [] p = some p
read_param (c ∷ rest) p =
    if c == b'@'
    then (if ltb 3 (suc (length rest))
        then set_year (read_number rest) p
        else if ltb 1 (suc (length rest))
        then set_month (read_number rest) p
        else some p)
    else some p

abbrev pub onward : Option Period → (Period → Option Period) → Option Period
onward none f = none
onward (some p) f = f p

-- `while(ios::getstring(iss, param))`
unfoldable pub words_loop : ℕ → Str → Stream → Period → Option Period
words_loop zero param is p = some p
words_loop (suc fuel) param is p =
    let (param', is') = getstring param is in
    if is'.fail then some p else onward (read_param param' p) (words_loop fuel param' is')

-- `--year` for a `size_t`
abbrev pub dec_size : ℕ → ℕ
dec_size zero = npos
dec_size (suc y) = y

-- A month that is still to come is that of the year before.
unfoldable pub not_to_come : Period → Period → Period
not_to_come now p =
    if ltb now.month p.month && p.year == now.year then record p { year = dec_size p.year } else p

abbrev pub answered : Period → Period → Option Period → Bool × Period
answered now p none = (false, p)
answered now p (some q) = (true, not_to_come now q)

-- `extract_y_and_m(params, y, m)` at the time `now`: what it returns, and `y` and `m`.
unfoldable pub extract_y_and_m : Period → Str → Period → Bool × Period
extract_y_and_m now params p = answered now p (words_loop (suc (length params)) [] (good params) p)

abbrev pub url_of : Str → ℕ → Option Str → Option Str
url_of type year none = none
url_of type year (some month) = some (
    codes "http://sookee.dyndns.org/oatab/"
    ++ to_string year
    ++ b'-' ∷ month
    ++ codes "-effect_"
    ++ type
    ++ codes ".html")

-- `get_url(type, year, month)`; `none` is the failure of the assertion on the month.
unfoldable pub get_url : Str → Period → Option Str
get_url type p = url_of type p.year (get_month_str p.month false)

-- ===== src/Oastats/Tests.antt =====
-- Tests of src/plugin-oastats.cpp.
use skivvy.Base.{◌≡◌, refl, true, false, some, codes, arith}
use skivvy.Stream.{skip_ws, peek, get}
use skivvy.Bot.Text.{getstring, until_term, to_string, digits}
use skivvy.Utils.{read_number}
use skivvy.Cal.{get_month_str}
use skivvy.Oastats.{Period, read_param, words_loop, not_to_come, extract_y_and_m, get_url}
use skivvy.Oastats.Bounds.{IsPeriod, IsAnswer, extract_y_and_m-IsAnswer}

abbrev today : Period
today = record { year = 2012; month = 4 }

today-IsPeriod : IsPeriod today
today-IsPeriod = record { year_from = omega arith; year_to = omega arith; month_to = omega arith }

extract_y_and_m-IsAnswer_example :
    IsAnswer today today (codes "kd") (extract_y_and_m today (codes "kd @11") today)
extract_y_and_m-IsAnswer_example =
    extract_y_and_m-IsAnswer today today (codes "kd @11") (codes "kd") (omega arith) today-IsPeriod

-- November is that of the year before; a month without a year and one with it; what is refused.
words_test :
    (extract_y_and_m today (codes "kd @11") today ≡ (true, record { year = 2011; month = 10 }))
    × (extract_y_and_m today (codes "@2010 @3 ck") today
        ≡ (true, record { year = 2010; month = 2 }))
    × (extract_y_and_m today (codes "@13") today ≡ (false, today))
    × (extract_y_and_m today (codes "@11 @999") today ≡ (false, today))
unfolding extract_y_and_m words_loop read_param getstring until_term skip_ws peek get read_number
    not_to_come
words_test = (refl, refl, refl, refl)

url_test :
    get_url (codes "kd") (record { year = 2011; month = 10 })
    ≡ some (codes "http://sookee.dyndns.org/oatab/2011-Nov-effect_kd.html")
unfolding get_url get_month_str to_string digits
url_test = refl

-- ===== src/Cal.antt =====
-- Dates: src/include/skivvy/cal.h and src/cal.cpp. A `date_t` is the `tm` of <ctime>, whose years count
-- from 1900 and whose months count from 0. `mktime`, `strftime` and the clock are not modelled, and the
-- overflow of an `int` is not reached by the operations here.
pub mod Back
mod Tests
use skivvy.Base.{
  ℕ, zero, suc, ◌+◌, ◌-◌, ◌*◌, ◌^◌, ◌%◌, Bool, true, false, not, ◌&&◌, ◌||◌, Option, none, some,
  List, [], ◌∷◌, ◌==◌, ltb, leb, if◌then◌else◌, Str, codes, take, get_elem?, length,
}

-- An `int`.
pub data ℤ : Type 0 where
  pos : ℕ → ℤ
  -- `negsuc n` is `- (n + 1)`
  negsuc : ℕ → ℤ

-- `--i`
abbrev pub pred : ℤ → ℤ
pred (pos zero) = negsuc 0
pred (pos (suc n)) = pos n
pred (negsuc n) = negsuc (suc n)

-- The conversion of an `int` to `size_t`.
abbrev pub to_size : ℤ → ℕ
to_size (pos n) = n
to_size (negsuc n) = 2 ^ 64 - suc n

abbrev pub is_pos : ℕ → ℤ → Bool
is_pos n (negsuc k) = false
is_pos zero (pos zero) = true
is_pos zero (pos (suc k)) = false
is_pos (suc n) (pos zero) = false
is_pos (suc n) (pos (suc k)) = is_pos n (pos k)

abbrev pub dmap : List ℕ
dmap = 31 ∷ 28 ∷ 31 ∷ 30 ∷ 31 ∷ 30 ∷ 31 ∷ 31 ∷ 30 ∷ 31 ∷ 30 ∷ 31 ∷ []

abbrev pub mon_str_map : List Str
mon_str_map =
    codes "January"
    ∷ codes "February"
    ∷ codes "March"
    ∷ codes "April"
    ∷ codes "May"
    ∷ codes "June"
    ∷ codes "July"
    ∷ codes "August"
    ∷ codes "September"
    ∷ codes "October"
    ∷ codes "November"
    ∷ codes "December"
    ∷ []

abbrev shown_name : Bool → Option Str → Option Str
shown_name full none = none
shown_name full (some s) = some (if full then s else take 3 s)

-- `get_month_str(m, full)`; `none` is the failure of the assertion.
unfoldable pub get_month_str : ℕ → Bool → Option Str
get_month_str m full = shown_name full (get_elem? mon_str_map m)

unfoldable pub is_leap_year : ℕ → Bool
is_leap_year y = (y % 4 == 0 && not (y % 100 == 0)) || y % 400 == 0

abbrev pub leap_day : ℕ → ℕ → ℕ
leap_day y m = if m == 1 then (if is_leap_year y then 1 else 0) else 0

abbrev pub with_leap : ℕ → Option ℕ → Option ℕ
with_leap extra none = none
with_leap extra (some n) = some (n + extra)

-- `days_in_month(y, m)`; `none` is a read outside `dmap`, which is undefined.
unfoldable pub days_in_month : ℕ → ℕ → Option ℕ
days_in_month y m = with_leap (leap_day y m) (get_elem? dmap m)

-- `date_t`
pub record Date : Type 0 where
  pub tm_sec : ℤ
  pub tm_min : ℤ
  pub tm_hour : ℤ
  pub tm_mday : ℤ
  pub tm_mon : ℤ
  pub tm_year : ℤ
  pub tm_wday : ℤ
  pub tm_yday : ℤ
  pub tm_isdst : ℤ

-- `date_t()`, which is `gmtime` of 0: the first of January 1970, a Thursday.
unfoldable pub epoch : Date
epoch = record {
  tm_sec = pos 0;
  tm_min = pos 0;
  tm_hour = pos 0;
  tm_mday = pos 1;
  tm_mon = pos 0;
  tm_year = pos 70;
  tm_wday = pos 4;
  tm_yday = pos 0;
  tm_isdst = pos 0;
}

-- `date_t(y, m, d)`, of numbers that an `int` holds
unfoldable pub make_date : ℕ → ℕ → ℕ → Date
make_date y m d = record epoch {
  tm_year = if leb 1900 y then pos (y - 1900) else negsuc (1899 - y);
  tm_mon = pos m;
  tm_mday = pos d;
  tm_isdst = pos 0;
}

-- `is_leap_year()` and `days_in_month()` of a `date_t`, which take the year as it is stored.
unfoldable pub date_is_leap_year : Date → Bool
date_is_leap_year d = is_leap_year (to_size d.tm_year)

unfoldable pub date_days_in_month : Date → Option ℕ
date_days_in_month d = days_in_month (to_size d.tm_year) (to_size d.tm_mon)

unfoldable pub dec_year : Date → Date
dec_year d = record d { tm_year = pred d.tm_year }

unfoldable pub dec_month : Date → Date
dec_month d =
    let d' = if is_pos 0 d.tm_mon then dec_year d else d in record d' { tm_mon = pred d'.tm_mon }

abbrev pub with_mday : Date → Option ℕ → Option Date
with_mday d none = none
with_mday d (some n) = some (record d { tm_mday = pos (suc n) })

-- The day before the first is the last of the month before.
abbrev wrap_mday : Date → Option Date
wrap_mday d =
    let d' = dec_month d in
    if is_pos 1 d.tm_mday then with_mday d' (date_days_in_month d') else some d

abbrev wrap_yday : Date → Date
wrap_yday d =
    if is_pos 0 d.tm_yday
    then record d { tm_yday = pos (365 + (if date_is_leap_year d then 1 else 0)) }
    else d

abbrev dec_days : Option Date → Option Date
dec_days none = none
dec_days (some d) =
    let d' = wrap_yday d in
    some (record d' { tm_mday = pred d'.tm_mday; tm_yday = pred d'.tm_yday })

-- `dec_day()`; `none` is a read outside `dmap`, which is undefined.
unfoldable pub dec_day : Date → Option Date
dec_day d = dec_days (wrap_mday d)

-- ===== src/Cal/Tests.antt =====
-- Tests of the dates.
use skivvy.Base.{ℕ, ◌+◌, ◌≡◌, refl, some, none, arith, true, false, codes, Option}
use skivvy.Cal.{
  ℤ, pos, negsuc, get_month_str, is_leap_year, days_in_month, Date, epoch, make_date, dec_month,
  dec_year, dec_day, date_days_in_month, date_is_leap_year,
}
use skivvy.Cal.Back.{IsDate, calendar_before, back, back-IsDate}

-- The first of March 2012.
abbrev march : Date
march = record {
  tm_sec = pos 0;
  tm_min = pos 0;
  tm_hour = pos 12;
  tm_mday = pos 1;
  tm_mon = pos 2;
  tm_year = pos 112;
  tm_wday = pos 4;
  tm_yday = pos 60;
  tm_isdst = pos 0;
}

march-IsDate : IsDate 112 2 0 march
march-IsDate = record {
  year_is = refl;
  mon_is = refl;
  mday_is = refl;
  yday_is = refl;
  is_month = omega arith;
  in_month = omega arith;
}

back-IsDate_example :
    (d' : Date) × (m' : ℕ) × (day' : ℕ) × (back 35 march ≡ some d')
    × IsDate 112 m' day' d'
    × (calendar_before 2012 m' + day' + 35 ≡ calendar_before 2012 2 + 0)
back-IsDate_example = back-IsDate 35 112 2 0 march (omega arith) march-IsDate (omega arith)

date_of : Option Date → Option (ℤ × ℤ × ℤ)
date_of none = none
date_of (some d) = some (d.tm_year, d.tm_mon, d.tm_mday)

back_test :
    (date_of (back 1 march) ≡ some (pos 112, pos 1, pos 29))
    × (date_of (back 35 march) ≡ some (pos 112, pos 0, pos 26))
    × (date_of (back 60 march) ≡ some (pos 112, pos 0, pos 1))
unfolding date_of back dec_day dec_month date_days_in_month days_in_month is_leap_year
back_test = (refl, refl, refl)

-- Before the first of January the month is -1, and its length is read outside the table.
january_test : (back 61 march ≡ none) × ((dec_month (make_date 2012 0 1)).tm_mon ≡ negsuc 0)
unfolding back dec_day dec_month dec_year date_days_in_month days_in_month is_leap_year make_date
    epoch
january_test = (refl, refl)

-- The year 2000 had a leap day, which the year as it is stored, 100, has not.
leap_test :
    (is_leap_year 2000 ≡ true)
    × (date_is_leap_year (make_date 2000 1 1) ≡ false)
    × (date_days_in_month (make_date 2000 1 1) ≡ some 28)
unfolding is_leap_year date_is_leap_year make_date epoch date_days_in_month days_in_month
leap_test = (refl, refl, refl)

month_test : (get_month_str 8 false ≡ some (codes "Sep")) × (get_month_str 12 true ≡ none)
unfolding get_month_str
month_test = (refl, refl)

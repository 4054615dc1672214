-- ===== src/Cal/Back.antt =====
-- Going back from a date of the calendar, day by day, to the first of January of its year.
use skivvy.Base.{
  ltb, ltb→lt, length, Bool-cases, ◌%◌, ◌||◌, Bool, if◌then◌else◌, ◌==◌, ◌≢◌, ℕ, zero, suc, ◌+◌,
  ◌≤◌, ◌<◌, ◌≡◌, refl, ap, ◌∙◌, Option, none, some, List, [], ◌∷◌, arith, get_elem?, All, subst,
  Option-cases, inl, inr,
}
use skivvy.Cal.{
  pos, dmap, days_in_month, is_leap_year, Date, date_days_in_month, dec_month, dec_day, with_leap,
  leap_day,
}

abbrev pub or_zero : Option ℕ → ℕ
or_zero none = 0
or_zero (some n) = n

-- The days of the months before the month `m`.
unfoldable days_before : ℕ → ℕ → ℕ
days_before y zero = 0
days_before y (suc m) = days_before y m + or_zero (days_in_month y m)

-- A date as the table of months of the code has it.
record IsStored (y m day : ℕ) (d : Date) : Type 0 where
  year_is : d.tm_year ≡ pos y
  mon_is : d.tm_mon ≡ pos m
  mday_is : d.tm_mday ≡ pos (suc day)
  yday_is : d.tm_yday ≡ pos (days_before y m + day)
  in_month : day < or_zero (days_in_month y m)

step_in_month :
    (y m day : ℕ) (d : Date)
    → IsStored y m (suc day) d
    → (d' : Date) × (dec_day d ≡ some d') × IsStored y m day d'
unfolding dec_day
step_in_month y m day d k =
    let yday : d.tm_yday ≡ pos (suc (days_before y m + day)) = k.yday_is ∙ ap pos (omega arith) in
    (
      record d { tm_mday = pos (suc day); tm_yday = pos (days_before y m + day) },
      rw (k.mday_is, yday) refl,
      record {
        year_is = k.year_is;
        mon_is = k.mon_is;
        mday_is = refl;
        yday_is = refl;
        in_month = omega (arith, k.in_month);
      },
    )

elem_before :
    (l : List ℕ) (m x : ℕ)
    → All (λ k. 0 < k) l
    → get_elem? l (suc m) ≡ some x
    → (n : ℕ) × (get_elem? l m ≡ some (suc n))
elem_before [] m x h e = cc
elem_before (zero ∷ l) zero x (h, hs) e = absurd (omega arith)
elem_before (suc k ∷ l) zero x h e = (k, refl)
elem_before (k ∷ l) (suc m) x (h, hs) e = elem_before l m x hs e

-- The month before a month of the calendar has a last day.
month_before :
    (y m : ℕ) → 0 < or_zero (days_in_month y (suc m)) → (n : ℕ) × (days_in_month y m ≡ some (suc n))
unfolding days_in_month
month_before y m h = elim (Option-cases (get_elem? dmap (suc m))) [
  | inl e ↦ absurd (omega (arith, subst (λ r. 0 < or_zero (with_leap (leap_day y (suc m)) r)) e h))
  | inr (x, e) ↦
      let (n, f) = elem_before dmap m x (omega arith) e in
      (n + leap_day y m, rw f (ap some (omega arith)))
]

step_to_month :
    (y m : ℕ) (d : Date)
    → IsStored y (suc m) 0 d
    → (day : ℕ) × (d' : Date) × (dec_day d ≡ some d')
      × IsStored y m day d'
      × (days_before y m + suc day ≡ days_before y (suc m))
unfolding dec_day dec_month date_days_in_month
step_to_month y m d k =
    let (n, e) = month_before y m k.in_month in
    let total : days_before y m + suc n ≡ days_before y (suc m) = unfold days_before in rw e refl in
    let yday : d.tm_yday ≡ pos (suc (days_before y m + n)) =
      k.yday_is ∙ ap pos (omega (arith, total)) in
    (
      n,
      record d { tm_mday = pos (suc n); tm_mon = pos m; tm_yday = pos (days_before y m + n) },
      rw (k.mday_is, yday, k.mon_is, k.year_is, e) refl,
      record {
        year_is = k.year_is;
        mon_is = refl;
        mday_is = refl;
        yday_is = refl;
        in_month = rw e (omega arith);
      },
      total,
    )

abbrev and_then : Option Date → (Date → Option Date) → Option Date
and_then none f = none
and_then (some d) f = f d

-- `dec_day` many times over
unfoldable pub back : ℕ → Date → Option Date
back zero d = some d
back (suc k) d = and_then (dec_day d) (back k)

back-suc : (k : ℕ) (d d' : Date) → dec_day d ≡ some d' → back (suc k) d ≡ back k d'
unfolding back
back-suc k d d' e = ap (λ r. and_then r (back k)) e

back_stored :
    (k y m day : ℕ) (d : Date)
    → IsStored y m day d
    → k ≤ days_before y m + day
    → (d' : Date) × (m' : ℕ) × (day' : ℕ) × (back k d ≡ some d')
      × IsStored y m' day' d'
      × (days_before y m' + day' + k ≡ days_before y m + day)
back_stored zero y m day d h le = (d, m, day, unfold back in refl, h, omega arith)
back_stored (suc k) y m (suc day) d h le =
    let (d1, e, h1) = step_in_month y m day d h in
    let (d', m', day', f, g, t) = back_stored k y m day d1 h1 (omega arith) in
    (d', m', day', back-suc k d d1 e ∙ f, g, omega (arith, t))
back_stored (suc k) y zero zero d h le = absurd (unfold days_before in omega arith)
back_stored (suc k) y (suc m) zero d h le =
    let (day, d1, e, h1, u) = step_to_month y m d h in
    let (d', m', day', f, g, t) = back_stored k y m day d1 h1 (omega arith) in
    (d', m', day', back-suc k d d1 e ∙ f, g, omega (arith, t, u))

-- The Gregorian calendar, in which the months count from 0.
abbrev pub has_leap_day : ℕ → Bool
has_leap_day year = if year % 100 == 0 then year % 400 == 0 else year % 4 == 0

abbrev pub calendar_days : ℕ → ℕ → ℕ
calendar_days year m =
    if m == 1
    then (if has_leap_day year then 29 else 28)
    else if m == 3 || m == 5 || m == 8 || m == 10
    then 30
    else 31

-- The days of a year before its month `m`.
abbrev pub calendar_before : ℕ → ℕ → ℕ
calendar_before year zero = 0
calendar_before year (suc m) = calendar_before year m + calendar_days year m

-- The years from 1901 to 2099 but 2000.
abbrev pub IsYear : ℕ → Type 0
IsYear y = (1 ≤ y) × (y ≤ 199) × (y ≢ 100)

leap : (y : ℕ) → IsYear y → is_leap_year y ≡ has_leap_day (1900 + y)
unfolding is_leap_year
leap y (a, b, c) = ground arith

-- The table of the code agrees with the calendar in these years.
table : (y m : ℕ) → IsYear y → m < 12 → days_in_month y m ≡ some (calendar_days (1900 + y) m)
unfolding days_in_month
table y zero k h = refl
table y (suc zero) k h = ap some (rw (leap y k) (ground arith))
table y (suc (suc zero)) k h = refl
table y (suc (suc (suc zero))) k h = refl
table y (suc (suc (suc (suc zero)))) k h = refl
table y (suc (suc (suc (suc (suc zero))))) k h = refl
table y (suc (suc (suc (suc (suc (suc zero)))))) k h = refl
table y (suc (suc (suc (suc (suc (suc (suc zero))))))) k h = refl
table y (suc (suc (suc (suc (suc (suc (suc (suc zero)))))))) k h = refl
table y (suc (suc (suc (suc (suc (suc (suc (suc (suc zero))))))))) k h = refl
table y (suc (suc (suc (suc (suc (suc (suc (suc (suc (suc zero)))))))))) k h = refl
table y (suc (suc (suc (suc (suc (suc (suc (suc (suc (suc (suc zero))))))))))) k h = refl
table y (suc (suc (suc (suc (suc (suc (suc (suc (suc (suc (suc (suc m)))))))))))) k h =
    absurd (omega arith)

beyond : (l : List ℕ) (m : ℕ) → length l ≤ m → get_elem? l m ≡ none
beyond [] m h = refl
beyond (x ∷ l) zero h = absurd (omega arith)
beyond (x ∷ l) (suc m) h = beyond l m (omega arith)

in_table : (y m day : ℕ) → day < or_zero (days_in_month y m) → m < 12
in_table y m day h = elim (Bool-cases (ltb m 12)) [
  | inl t ↦ ltb→lt m 12 t
  | inr f ↦
      let far : 12 ≤ m = ground arith in
      let e : days_in_month y m ≡ none = unfold days_in_month in rw (beyond dmap m far) refl in
      absurd (omega (arith, subst (λ r. day < or_zero r) e h))
]

before : (y m : ℕ) → IsYear y → m ≤ 12 → days_before y m ≡ calendar_before (1900 + y) m
unfolding days_before
before y zero k h = refl
before y (suc m) k h = rw (table y m k (omega arith), before y m k (omega arith)) refl

-- The date is the day `day + 1` of the month `m` of the year `1900 + y` in the calendar, and the day of the
-- year agrees with that.
pub record IsDate (y m day : ℕ) (d : Date) : Type 0 where
  pub year_is : d.tm_year ≡ pos y
  pub mon_is : d.tm_mon ≡ pos m
  pub mday_is : d.tm_mday ≡ pos (suc day)
  pub yday_is : d.tm_yday ≡ pos (calendar_before (1900 + y) m + day)
  pub is_month : m < 12
  pub in_month : day < calendar_days (1900 + y) m

stored : (y m day : ℕ) (d : Date) → IsYear y → IsDate y m day d → IsStored y m day d
stored y m day d k h = record {
  year_is = h.year_is;
  mon_is = h.mon_is;
  mday_is = h.mday_is;
  yday_is = rw (before y m k (omega (arith, h.is_month))) h.yday_is;
  in_month = rw (table y m k h.is_month) h.in_month;
}

of_calendar : (y m day : ℕ) (d : Date) → IsYear y → IsStored y m day d → IsDate y m day d
of_calendar y m day d k h =
    let month = in_table y m day h.in_month in
    record {
      year_is = h.year_is;
      mon_is = h.mon_is;
      mday_is = h.mday_is;
      yday_is = h.yday_is ∙ ap (λ n. pos (n + day)) (before y m k (omega (arith, month)));
      is_month = month;
      in_month = subst (λ r. day < or_zero r) (table y m k month) h.in_month;
    }

-- From a date of the Gregorian calendar in the years from 1901 to 2099 but 2000, going back `k` days
-- within its year with `dec_day` reaches the date of the calendar whose day of the year is `k` less:
-- months of every length are crossed, the February of a leap year too, and nothing outside the table of
-- months is read.
pub back-IsDate :
    (k y m day : ℕ) (d : Date)
    → IsYear y
    → IsDate y m day d
    → k ≤ calendar_before (1900 + y) m + day
    → (d' : Date) × (m' : ℕ) × (day' : ℕ) × (back k d ≡ some d')
      × IsDate y m' day' d'
      × (calendar_before (1900 + y) m' + day' + k ≡ calendar_before (1900 + y) m + day)
back-IsDate k y m day d year h le =
    let here = before y m year (omega (arith, h.is_month)) in
    let (d', m', day', e, g, t) =
      back_stored k y m day d (stored y m day d year h) (omega (arith, here, le)) in
    let g' = of_calendar y m' day' d' year g in
    let there = before y m' year (omega (arith, g'.is_month)) in
    (d', m', day', e, g', omega (arith, t, here, there))

-- ===== src/Oastats/Bounds.antt =====
-- The month that is asked for: it is one of the calendar and not one to come.
use skivvy.Base.{
  ℕ, zero, suc, ◌≤◌, ◌<◌, Bool, true, false, ◌≡◌, ◌≢◌, refl, ◌∙◌, sym, Option, none, some, [], ◌∷◌,
  List, ◌&&◌, ◌||◌, arith, ◌==◌, ltb, if◌then◌else◌, Str, length, Bool-cases, inl, inr, ◌⊎◌,
  get_elem?, take,
}
use skivvy.Stream.{Stream, good}
use skivvy.Bot.Text.{getstring}
use skivvy.Utils.{read_number}
use skivvy.Cal.{get_month_str, mon_str_map}
use skivvy.Oastats.{
  Period, read_param, set_year, set_month, answered, url_of, onward, words_loop, dec_size,
  not_to_come, extract_y_and_m, get_url,
}
use skivvy.Oastats.Words.{getstring-shorter}

pub record IsPeriod (p : Period) : Type 0 where
  pub year_from : 1000 ≤ p.year
  pub year_to : p.year ≤ 9999
  pub month_to : p.month < 12

abbrev IsPeriodOr : Option Period → Type 0
IsPeriodOr none = Unit
IsPeriodOr (some p) = IsPeriod p

set_year_keeps : (y : Option ℕ) (p : Period) → IsPeriod p → IsPeriodOr (set_year y p)
set_year_keeps none p h = tt
set_year_keeps (some y) p h = elim (Bool-cases (ltb y 1000 || ltb 9999 y)) [
  | inl t ↦ rw t tt
  | inr f ↦
      rw f (record {
        year_from = ground (arith, f);
        year_to = ground (arith, f);
        month_to = h.month_to;
      })
]

set_month_keeps : (m : Option ℕ) (p : Period) → IsPeriod p → IsPeriodOr (set_month m p)
set_month_keeps none p h = tt
set_month_keeps (some m) p h = elim (Bool-cases (ltb m 1 || ltb 12 m)) [
  | inl t ↦ rw t tt
  | inr f ↦
      rw f (record { year_from = h.year_from; year_to = h.year_to; month_to = ground (arith, f) })
]

read_param_keeps : (s : Str) (p : Period) → IsPeriod p → IsPeriodOr (read_param s p)
unfolding read_param
read_param_keeps [] p h = h
read_param_keeps (c ∷ s) p h =
    branches (c == b'@') (ltb 3 (suc (length s))) (ltb 1 (suc (length s)))
  where
    branches :
        (a b d : Bool)
        → IsPeriodOr (
            if a
            then (if b
                then set_year (read_number s) p
                else if d
                then set_month (read_number s) p
                else some p)
            else some p)
    branches false b d = h
    branches true true d = set_year_keeps (read_number s) p h
    branches true false true = set_month_keeps (read_number s) p h
    branches true false false = h

onward_keeps :
    (o : Option Period) (f : Period → Option Period)
    → ((p : Period) → IsPeriod p → IsPeriodOr (f p))
    → IsPeriodOr o
    → IsPeriodOr (onward o f)
onward_keeps none f g h = tt
onward_keeps (some p) f g h = g p h

words_loop_keeps :
    (fuel : ℕ) (param : Str) (is : Stream) (p : Period)
    → IsPeriod p
    → IsPeriodOr (words_loop fuel param is p)
unfolding words_loop
words_loop_keeps zero param is p h = h
words_loop_keeps (suc fuel) param is p h = elim (Bool-cases (getstring param is).1.fail) [
  | inl t ↦ rw t h
  | inr f ↦ rw f (
      onward_keeps (read_param (getstring param is).0 p)
        (words_loop fuel (getstring param is).0 (getstring param is).1)
        (words_loop_keeps fuel (getstring param is).0 (getstring param is).1)
        (read_param_keeps (getstring param is).0 p h))
]

onward_same :
    (o : Option Period) (f g : Period → Option Period)
    → ((p : Period) → f p ≡ g p)
    → onward o f ≡ onward o g
onward_same none f g h = refl
onward_same (some p) f g h = h p

loop_round :
    (fuel : ℕ) (param : Str) (is : Stream) (p : Period)
    → (getstring param is).1.fail ≡ false
    → words_loop (suc fuel) param is p
      ≡ onward
          (read_param (getstring param is).0 p)
          (words_loop fuel (getstring param is).0 (getstring param is).1)
unfolding words_loop
loop_round fuel param is p f = rw f refl

-- One round more changes nothing where the rounds are more than the bytes of the stream: the loop of
-- the source has come to its end.
pub words_loop-suc :
    (fuel : ℕ) (param : Str) (is : Stream) (p : Period)
    → length is.buf < fuel
    → words_loop (suc fuel) param is p ≡ words_loop fuel param is p
words_loop-suc zero param is p lt = absurd (omega arith)
words_loop-suc (suc fuel) param is p lt = elim (Bool-cases (getstring param is).1.fail) [
  | inl t ↦ unfold words_loop in rw t refl
  | inr f ↦
      let (word, is') = getstring param is in
      let short : length is'.buf < fuel =
        omega (arith, lt, getstring-shorter param is.buf is.eof is.fail f) in
      loop_round (suc fuel) param is p f
      ∙ onward_same (read_param word p) (words_loop (suc fuel) word is') (words_loop fuel word is')
          (λ q. words_loop-suc fuel word is' q short)
      ∙ sym (loop_round fuel param is p f)
]

abbrev IsPast : Period → Period → Type 0
IsPast now p = (p.year ≢ now.year) ⊎ (p.month ≤ now.month)

-- The two ends of `extract_y_and_m`.
abbrev pub IsAnswer : Period → Period → Str → Bool × Period → Type 0
IsAnswer now p type (false, q) = q ≡ p
IsAnswer now p type (true, q) =
    IsPeriod q × IsPast now q × ((url : Str) × (get_url type q ≡ some url))

elem_there : (l : List Str) (m : ℕ) → m < length l → (s : Str) × (get_elem? l m ≡ some s)
elem_there [] m lt = absurd (omega arith)
elem_there (s ∷ l) zero lt = (s, refl)
elem_there (s ∷ l) (suc m) lt = elem_there l m (omega (arith, lt))

url_there :
    (type : Str) (y : ℕ) (o : Option Str) (s : Str)
    → o ≡ some s
    → (url : Str) × (url_of type y o ≡ some url)
url_there type y none s e = cc
url_there type y (some t) s e = (_, refl)

get_url_there : (type : Str) (p : Period) → p.month < 12 → (url : Str) × (get_url type p ≡ some url)
unfolding get_url get_month_str
get_url_there type p lt =
    let (s, e) = elem_there mon_str_map p.month lt in
    url_there type p.year (get_month_str p.month false) (take 3 s) (rw e refl)

dec_size-suc : (y : ℕ) → 0 < y → suc (dec_size y) ≡ y
dec_size-suc zero lt = absurd (omega arith)
dec_size-suc (suc y) lt = refl

not_to_come_lem :
    (now p : Period)
    → 1000 < now.year
    → IsPeriod p
    → IsPeriod (not_to_come now p) × IsPast now (not_to_come now p)
unfolding not_to_come
not_to_come_lem now p y h = elim (Bool-cases (ltb now.month p.month && p.year == now.year)) [
  | inl t ↦
      let same : p.year ≡ now.year = ground (arith, t) in
      let d = dec_size-suc p.year (omega (arith, same, y)) in
      rw t (
        record {
          year_from = omega (arith, d, same, y);
          year_to = omega (arith, d, h.year_to);
          month_to = h.month_to;
        },
        inl (omega (arith, d, same)),
      )
  | inr f ↦ rw f (h, ground (arith, f))
]

answer_lem :
    (now p : Period) (type : Str) (o : Option Period)
    → 1000 < now.year
    → IsPeriodOr o
    → IsAnswer now p type (answered now p o)
answer_lem now p type none y h = refl
answer_lem now p type (some q) y h =
    let (a, b) = not_to_come_lem now q y h in
    (a, b, get_url_there type (not_to_come now q) a.month_to)

-- From a year of four digits and a month of the twelve, and whatever the words of the user are,
-- `extract_y_and_m` either fails and leaves the year and the month as they were, or it gives a year of
-- four digits and a month of the twelve that is not still to come this year, and `get_url` makes a page
-- of them for every type. The year of the clock is above 1000.
pub extract_y_and_m-IsAnswer :
    (now p : Period) (params type : Str)
    → 1000 < now.year
    → IsPeriod p
    → IsAnswer now p type (extract_y_and_m now params p)
unfolding extract_y_and_m
extract_y_and_m-IsAnswer now p params type y h =
    answer_lem now p type (words_loop (suc (length params)) [] (good params) p) y
      (words_loop_keeps (suc (length params)) [] (good params) p h)

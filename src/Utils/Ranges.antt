-- ===== src/Utils/Ranges.antt =====
-- Lists of ranges are read back: theorems on `parse_rangelist` of src/utils.cpp.
use skivvy.Base.{
  ℕ, zero, suc, ◌-◌, ◌≤◌, ◌<◌, Bool, false, ◌≡◌, ◌≢◌, refl, ◌∙◌, List, [], ◌∷◌, ◌++◌, arith,
  is_empty, some, length, length-append, Str, Lacks, All-append,
}
use skivvy.Hol.{Hol, IsHol}
use skivvy.Stream.{good, at_end, getline}
use skivvy.Stream.Laws.{getline_cut, getline_all}
use skivvy.Bot.Text.{npos, to_string}
use skivvy.Utils.{
  read_number, count_from, upper, push_range, range_items, range_loop, parse_rangelist,
}
use skivvy.Utils.Digits.{to_string-AllDigits, read_number-to_string, AllDigits-Lacks}

-- A range as one writes it, and ranges behind one another.
abbrev pub spell_range : ℕ × ℕ → Str
spell_range (l, u) = to_string l ++ b'-' ∷ to_string u

abbrev pub spell_ranges : List (ℕ × ℕ) → Str
spell_ranges [] = []
spell_ranges (r ∷ []) = spell_range r
spell_ranges (r ∷ q ∷ rs) = spell_range r ++ b',' ∷ spell_ranges (q ∷ rs)

-- The numbers of the ranges, in order.
abbrev pub numbers : List (ℕ × ℕ) → List ℕ
numbers [] = []
numbers ((l, u) ∷ rs) = count_from (suc u - l) l ++ numbers rs

abbrev pub AreRanges : List (ℕ × ℕ) → Type 0
AreRanges [] = Unit
AreRanges ((l, u) ∷ rs) = (l ≤ u) × (u < npos) × AreRanges rs

upper-eq : (l u : ℕ) (ub : Str) → is_empty ub ≡ false → read_number ub ≡ some u → upper l ub ≡ u
unfolding upper
upper-eq l u [] e h = cc
upper-eq l u (c ∷ ub) e h = rw (h, upper) refl

push_range-count_from :
    (l u : ℕ) → l ≤ u → u < npos → push_range l u ≡ some (count_from (suc u - l) l)
unfolding push_range
push_range-count_from l u le lt = ground arith

range_items-spell_range :
    {h : Hol} (k : IsHol h) (l u : ℕ)
    → l ≤ u
    → u < npos
    → range_items h (spell_range (l, u)) ≡ some (count_from (suc u - l) l)
unfolding range_items
range_items-spell_range {h} k l u le lt =
    let (dl, el) = to_string-AllDigits l in
    let (du, eu) = to_string-AllDigits u in
    let lb : h.sgl b'-' [] (good (spell_range (l, u))) ≡ (to_string l, good (to_string u)) =
      k.sgl_getline b'-' [] _
      ∙ getline_cut b'-' [] (to_string l) (to_string u)
          (AllDigits-Lacks b'-' (to_string l) refl dl) in
    let ub : h.sgl 10 [] (good (to_string u)) ≡ (to_string u, at_end (is_empty (to_string u))) =
      k.sgl_getline 10 [] _
      ∙ getline_all 10 [] (to_string u) (AllDigits-Lacks 10 (to_string u) refl du) in
    rw
      (
        lb,
        el,
        read_number-to_string l (omega arith),
        lb,
        ub,
        upper-eq l u (to_string u) eu (read_number-to_string u (omega arith)),
      )
      (push_range-count_from l u le lt)

range_loop-end :
    {h : Hol} (k : IsHol h) (fuel : ℕ) (f : Bool) → range_loop h fuel (at_end f) ≡ some []
unfolding range_loop getline
range_loop-end k zero f = refl
range_loop-end k (suc fuel) f = rw (k.sgl_getline b',' [] (at_end f)) refl

spell_range-Lacks : (l u : ℕ) → Lacks b',' (spell_range (l, u))
spell_range-Lacks l u =
    let (dl, el) = to_string-AllDigits l in
    let (du, eu) = to_string-AllDigits u in
    All-append (λ d. d ≢ b',') (to_string l) (b'-' ∷ to_string u)
      (AllDigits-Lacks b',' (to_string l) refl dl)
      (ground arith, AllDigits-Lacks b',' (to_string u) refl du)

append-is_empty : (s t : Str) → is_empty s ≡ false → is_empty (s ++ t) ≡ false
append-is_empty [] t h = cc
append-is_empty (c ∷ s) t h = refl

spell_range-is_empty : (l u : ℕ) → is_empty (spell_range (l, u)) ≡ false
spell_range-is_empty l u = append-is_empty (to_string l) _ (to_string-AllDigits l).1

range_loop-numbers :
    {h : Hol} (k : IsHol h) (fuel : ℕ) (rs : List (ℕ × ℕ))
    → length rs < fuel
    → AreRanges rs
    → range_loop h fuel (good (spell_ranges rs)) ≡ some (numbers rs)
unfolding range_loop getline
range_loop-numbers k zero rs lt a = ground arith
range_loop-numbers k (suc fuel) [] lt a = rw (k.sgl_getline b',' [] (good [])) refl
range_loop-numbers {h} k (suc fuel) ((l, u) ∷ []) lt (le, ltu, a) =
    let whole : h.sgl b',' [] (good (spell_range (l, u)))
        ≡ (spell_range (l, u), at_end (is_empty (spell_range (l, u)))) =
      k.sgl_getline b',' [] _ ∙ getline_all b',' [] (spell_range (l, u)) (spell_range-Lacks l u) in
    rw
      (
        whole,
        spell_range-is_empty l u,
        range_loop-end k fuel false,
        range_items-spell_range k l u le ltu,
      )
      refl
range_loop-numbers {h} k (suc fuel) ((l, u) ∷ r ∷ rs) lt (le, ltu, a) =
    let one : h.sgl b',' [] (good (spell_range (l, u) ++ b',' ∷ spell_ranges (r ∷ rs)))
        ≡ (spell_range (l, u), good (spell_ranges (r ∷ rs))) =
      k.sgl_getline b',' [] _
      ∙ getline_cut b',' [] (spell_range (l, u)) (spell_ranges (r ∷ rs)) (spell_range-Lacks l u) in
    rw
      (
        one,
        range_items-spell_range k l u le ltu,
        range_loop-numbers k fuel (r ∷ rs) (omega (arith, lt)) a,
      )
      refl

length_positive : (s : Str) → is_empty s ≡ false → 0 < length s
length_positive [] h = cc
length_positive (c ∷ s) h = omega arith

length-spell_ranges : (rs : List (ℕ × ℕ)) → length rs ≤ length (spell_ranges rs)
length-spell_ranges [] = omega arith
length-spell_ranges ((l, u) ∷ []) = length_positive (spell_range (l, u)) (spell_range-is_empty l u)
length-spell_ranges ((l, u) ∷ q ∷ rs) = omega (
  arith,
  length-append (spell_range (l, u)) (b',' ∷ spell_ranges (q ∷ rs)),
  length-spell_ranges (q ∷ rs),
)

-- Ranges `l-u` with commas between them, each upper bound below the largest number of 64 bits and none below
-- its lower bound, are read as their numbers, in order; and the loops end.
pub parse_rangelist-numbers :
    {h : Hol}
    → IsHol h
    → (rs : List (ℕ × ℕ)) → AreRanges rs
    → parse_rangelist h (spell_ranges rs) ≡ some (numbers rs)
unfolding parse_rangelist
parse_rangelist-numbers k rs a =
    range_loop-numbers k (suc (length (spell_ranges rs))) rs (omega (arith, length-spell_ranges rs))
      a

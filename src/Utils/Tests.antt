-- ===== src/Utils/Tests.antt =====
-- The theorem on lists of ranges at a concrete list, and what is read of a damaged one.
use skivvy.Base.{◌≡◌, refl, some, [], ◌∷◌, ◌++◌, arith, codes}
use skivvy.Hol.Model.{hol, hol-IsHol}
use skivvy.Stream.{getline}
use skivvy.Utils.{
  count_from, upper, push_range, read_number, range_items, range_loop, parse_rangelist,
}
use skivvy.Bot.Text.{to_string, digits}
use skivvy.Utils.Wild.{prompt_color, wild_replace, starred, filled, wild_replace-filled}
use skivvy.Utils.Ranges.{spell_ranges, numbers, parse_rangelist-numbers}

parse_rangelist-numbers_example :
    parse_rangelist hol (spell_ranges ((1, 4) ∷ (7, 7) ∷ []))
    ≡ some (numbers ((1, 4) ∷ (7, 7) ∷ []))
parse_rangelist-numbers_example =
    parse_rangelist-numbers hol-IsHol ((1, 4) ∷ (7, 7) ∷ []) (ground arith)

parse_rangelist-run :
    parse_rangelist hol (codes "1-3,x, 9 - 10,5-2,7") ≡ some (1 ∷ 2 ∷ 3 ∷ 9 ∷ 10 ∷ 7 ∷ [])
unfolding parse_rangelist range_loop range_items push_range upper read_number count_from hol getline
parse_rangelist-run = refl

prompt_color-run : prompt_color (codes "do_ab") ≡ 2 ∷ 3 ∷ (codes "03,15ab:" ++ 15 ∷ b' ' ∷ [])
unfolding prompt_color to_string digits
prompt_color-run = refl

wild_replace-filled_example :
    wild_replace (starred (codes "a*") (codes "b" ∷ [])) (codes "x" ∷ []) (codes "x" ∷ [])
    ≡ filled (codes "a*") (codes "b" ∷ []) (codes "x" ∷ [])
wild_replace-filled_example =
    wild_replace-filled (codes "a*") (codes "b" ∷ []) (codes "x" ∷ []) (codes "x" ∷ []) refl

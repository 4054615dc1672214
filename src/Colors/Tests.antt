-- ===== src/Colors/Tests.antt =====
-- Concrete colors.
use skivvy.Base.{◌≡◌, ℕ, ◌≤◌, ◌*◌, All, refl, some, arith, get_elem?, codes, ◌∷◌, ◌++◌, []}
use skivvy.Colors.Quake.{oa_loop, oa_to_irc, game_text, plain, seen}
use skivvy.Colors.{
  Color, irc_colors, difference, root_below, root, distance, closest_loop, closest_color,
}
use skivvy.Colors.Nearest.{IsRoot, squares, closest_color_lem}

abbrev orange : Color
orange = record { r = 250; g = 120; b = 50 }

closest_color-run : closest_color orange ≡ 7
unfolding closest_color closest_loop distance difference root root_below
closest_color-run = refl

closest_color_lem_example :
    (k : Color) × (get_elem? irc_colors (closest_color orange) ≡ some k)
    × (d : ℕ) × IsRoot (squares k orange) d
    × All (λ j. d * d ≤ squares j orange) irc_colors
closest_color_lem_example = closest_color_lem orange (omega arith, omega arith, omega arith)

-- The letter `x` stands for the color 0, and a byte 1 is shown as `#`.
oa_to_irc-run :
    oa_to_irc (codes "^1Red^xx" ++ 1 ∷ [])
    ≡ 2 ∷ 15 ∷ 3 ∷ codes "05Red" ++ 15 ∷ 3 ∷ codes "01x#" ++ 15 ∷ []
unfolding oa_to_irc oa_loop
oa_to_irc-run = refl

-- A comma and digits behind a color are not shown, though they are text of the game.
comma_lost_test :
    (seen plain (oa_to_irc (codes "^1,5 left")) ≡ codes " left")
    × (game_text (codes "^1,5 left") ≡ codes ",5 left")
unfolding oa_to_irc oa_loop
comma_lost_test = (refl, refl)

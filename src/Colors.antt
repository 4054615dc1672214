-- ===== src/Colors.antt =====
-- src/irc.cpp: the IRC color that is nearest to a color. `std::sqrt` comes in only with its result
-- cut down to a whole number, which is the integer square root for the numbers that arise, at most
-- 3 * 255 * 255.
pub mod Nearest
pub mod Quake
mod Tests
use skivvy.Base.{
  ℕ, zero, suc, ◌+◌, ◌-◌, ◌*◌, Bool, true, false, List, [], ◌∷◌, ltb, leb, if◌then◌else◌,
}

pub record Color : Type 0 where
  pub r : ℕ
  pub g : ℕ
  pub b : ℕ

abbrev color : ℕ → ℕ → ℕ → Color
color r g b = record { r = r; g = g; b = b }

abbrev pub irc_colors : List Color
irc_colors =
    color 255 255 255
    ∷ color 0 0 0
    ∷ color 0 0 128
    ∷ color 0 128 0
    ∷ color 255 0 0
    ∷ color 128 0 64
    ∷ color 128 0 128
    ∷ color 255 128 64
    ∷ color 255 255 0
    ∷ color 128 255 0
    ∷ color 0 128 128
    ∷ color 0 255 255
    ∷ color 0 0 255
    ∷ color 255 0 255
    ∷ color 128 128 128
    ∷ color 192 192 192
    ∷ []

-- `std::max(a, b) - std::min(a, b)`
unfoldable pub difference : ℕ → ℕ → ℕ
difference a b = (if ltb a b then b else a) - (if ltb b a then b else a)

-- The largest number up to the bound whose square is at most `n`.
unfoldable pub root_below : ℕ → ℕ → ℕ
root_below zero n = 0
root_below (suc k) n = let rest = root_below k n in if leb (suc k * suc k) n then suc k else rest

-- `size_t(std::sqrt(n))` for `n` below 512 * 512
unfoldable pub root : ℕ → ℕ
root n = root_below 511 n

unfoldable pub distance : Color → Color → ℕ
distance c1 c2 =
    let r = difference c1.r c2.r in
    let g = difference c1.g c2.g in let b = difference c1.b c2.b in root (r * r + g * g + b * b)

-- The loop of `closest_color`, from the index `i`.
unfoldable pub closest_loop : List Color → Color → ℕ → ℕ → ℕ → ℕ
closest_loop [] c i index min = index
closest_loop (k ∷ ks) c i index min =
    let d = distance k c in
    let nearer = closest_loop ks c (suc i) i d in
    let rest = closest_loop ks c (suc i) index min in if ltb d min then nearer else rest

unfoldable pub closest_color : Color → ℕ
closest_color c = closest_loop irc_colors c 0 0 (root (255 * 255 + 255 * 255 + 255 * 255))

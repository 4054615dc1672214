-- ===== src/Hol.antt =====
-- The header-only library `hol` (<hol/string_utils.h>, <hol/small_types.h>) is no part of the
-- repository: its functions are the parameter `Hol`, and what the code relies on is `IsHol`.
pub mod Model
pub mod Trim
use skivvy.Base.{
  ℕ, Bool, true, false, ◌≡◌, ◌≢◌, List, [], ◌∷◌, ◌++◌, map, ◌&&◌, ◌==◌, Str, is_space, to_lower,
  All,
}
use skivvy.Stream.{Stream, getline}

pub record Hol : Type 0 where
  -- `hol::trim_right_mute(s)` and `hol::trim_mute(s)`: the new value of `s`
  pub trim_right : Str → Str
  pub trim : Str → Str
  -- `hol::trim_mute(s, bytes)`
  pub trim_of : Str → Str → Str
  -- `hol::lower_mute(s)`
  pub lower : Str → Str
  -- `hol::replace_all_mute(s, from, to)`
  pub replace_all : Str → Str → Str → Str
  -- `sgl(is, s, d)`: the new value of `s` and the stream
  pub sgl : ℕ → Str → Stream → Str × Stream
  -- `hol::join(begin, end, sep)` over the items
  pub join : List Str → Str → Str

abbrev pub is_prefix : Str → Str → Bool
is_prefix [] s = true
is_prefix (c ∷ p) [] = false
is_prefix (c ∷ p) (d ∷ s) = d == c && is_prefix p s

abbrev pub AllSpace : Str → Type 0
AllSpace = All (λ c. is_space c ≡ true)

-- The documented behaviour of these functions.
pub record IsHol (h : Hol) : Type 0 where
  -- a line that ends in no space loses exactly the spaces behind it
  pub trim_right_keeps :
      (s w : Str) (c : ℕ)
      → is_space c ≡ false
      → AllSpace w
      → h.trim_right ((s ++ c ∷ []) ++ w) ≡ s ++ c ∷ []
  pub trim_right_blank : (w : Str) → AllSpace w → h.trim_right w ≡ []
  -- `sgl` is `std::getline`
  pub sgl_getline : (d : ℕ) (old : Str) (s : Stream) → h.sgl d old s ≡ getline d old s
  pub lower_map : (s : Str) → h.lower s ≡ map to_lower s
  -- one pass from the left, over occurrences that do not overlap
  pub replace_all_nil : (p t : Str) → h.replace_all [] p t ≡ []
  pub replace_all_hit :
      (p t s : Str) → p ≢ [] → h.replace_all (p ++ s) p t ≡ t ++ h.replace_all s p t
  pub replace_all_miss :
      (p t s : Str) (c : ℕ)
      → is_prefix p (c ∷ s) ≡ false
      → h.replace_all (c ∷ s) p t ≡ c ∷ h.replace_all s p t

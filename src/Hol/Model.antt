-- ===== src/Hol/Model.antt =====
-- One library that meets `IsHol`, for evaluation and for the witnesses.
use skivvy.Base.{
  ℕ, zero, suc, true, false, ◌≡◌, ◌≢◌, refl, List, [], ◌∷◌, ◌++◌, map, arith, ◌&&◌, if◌then◌else◌,
  Str, is_space, is_empty, to_lower, has_char, length,
}
use skivvy.Stream.{getline}
use skivvy.Hol.{Hol, IsHol, is_prefix, AllSpace}

trim_end : Str → Str
trim_end [] = []
trim_end (c ∷ s) = let r = trim_end s in if is_empty r && is_space c then [] else c ∷ r

trim_start : Str → Str
trim_start [] = []
trim_start (c ∷ s) = if is_space c then trim_start s else c ∷ s

abbrev after_first : Str → ℕ
after_first [] = 0
after_first (c ∷ p) = length p

-- The number counts the bytes of an occurrence that are still to be dropped.
replace : ℕ → Str → Str → Str → Str
replace k [] p t = []
replace (suc k) (c ∷ s) p t = replace k s p t
replace zero (c ∷ s) p t =
    if is_prefix p (c ∷ s) then t ++ replace (after_first p) s p t else c ∷ replace zero s p t

trim_end_of : Str → Str → Str
trim_end_of bytes [] = []
trim_end_of bytes (c ∷ s) =
    let r = trim_end_of bytes s in if is_empty r && has_char bytes c then [] else c ∷ r

trim_start_of : Str → Str → Str
trim_start_of bytes [] = []
trim_start_of bytes (c ∷ s) = if has_char bytes c then trim_start_of bytes s else c ∷ s

join_with : List Str → Str → Str
join_with [] sep = []
join_with (x ∷ []) sep = x
join_with (x ∷ y ∷ l) sep = x ++ sep ++ join_with (y ∷ l) sep

unfoldable pub hol : Hol
unfolding trim_end trim_start trim_end_of trim_start_of replace join_with
hol = record {
  trim_right = trim_end;
  trim = λ s. trim_end (trim_start s);
  trim_of = λ s bytes. trim_end_of bytes (trim_start_of bytes s);
  lower = map to_lower;
  replace_all = replace zero;
  sgl = getline;
  join = join_with;
}

trim_end-space : (w : Str) → AllSpace w → trim_end w ≡ []
unfolding trim_end
trim_end-space [] h = refl
trim_end-space (c ∷ w) (h, hw) = ground (arith, trim_end-space w hw)

trim_end-append :
    (s w : Str) (c : ℕ)
    → is_space c ≡ false
    → AllSpace w
    → trim_end ((s ++ c ∷ []) ++ w) ≡ s ++ c ∷ []
unfolding trim_end
trim_end-append [] w c h hw = rw (trim_end-space w hw, h)
trim_end-append (d ∷ []) w c h hw = rw (trim_end-append [] w c h hw)
trim_end-append (d ∷ e ∷ s) w c h hw = rw (trim_end-append (e ∷ s) w c h hw)

is_prefix-append : (p s : Str) → is_prefix p (p ++ s) ≡ true
is_prefix-append [] s = refl
is_prefix-append (c ∷ p) s = ground (arith, is_prefix-append p s)

replace-skip : (q s p t : Str) → replace (length q) (q ++ s) p t ≡ replace zero s p t
unfolding replace
replace-skip [] s p t = refl
replace-skip (c ∷ q) s p t = replace-skip q s p t

replace-hit : (p t s : Str) → p ≢ [] → replace zero (p ++ s) p t ≡ t ++ replace zero s p t
unfolding replace
replace-hit [] t s h = absurd (h refl)
replace-hit (c ∷ p) t s h = ground (arith, is_prefix-append p s, replace-skip p s (c ∷ p) t)

pub hol-IsHol : IsHol hol
unfolding hol
hol-IsHol = record {
  trim_right_keeps = trim_end-append;
  trim_right_blank = trim_end-space;
  sgl_getline = λ d old s. refl;
  lower_map = λ s. refl;
  replace_all_nil = λ p t. refl;
  replace_all_hit = replace-hit;
  replace_all_miss = λ p t s c h. rw h;
}

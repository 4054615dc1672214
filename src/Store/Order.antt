-- ===== src/Store/Order.antt =====
-- The order of the keys is a strict total order on what it compares of them.
use skivvy.Base.{Bool, true, false, ◌≡◌, refl, ◌↔◌, [], ◌∷◌, arith, Str}
use skivvy.Store.{lex, ci_fix, ci_cmp, same_key}

pub lex_irrefl : (s : Str) → lex s s ≡ false
unfolding lex
lex_irrefl [] = refl
lex_irrefl (c ∷ s) = ground (arith, lex_irrefl s)

pub lex_asym : (s t : Str) → lex s t ≡ true → lex t s ≡ false
unfolding lex
lex_asym [] [] h = refl
lex_asym [] (d ∷ t) h = refl
lex_asym (c ∷ s) [] h = cc
lex_asym (c ∷ s) (d ∷ t) h = ground (arith, lex_asym s t)

pub lex_trans : (s t u : Str) → lex s t ≡ true → lex t u ≡ true → lex s u ≡ true
unfolding lex
lex_trans [] [] u h k = cc
lex_trans [] (d ∷ t) [] h k = cc
lex_trans [] (d ∷ t) (e ∷ u) h k = refl
lex_trans (c ∷ s) [] u h k = cc
lex_trans (c ∷ s) (d ∷ t) [] h k = cc
lex_trans (c ∷ s) (d ∷ t) (e ∷ u) h k = ground (arith, lex_trans s t u)

pub lex_total : (s t : Str) → lex s t ≡ false → lex t s ≡ false → s ≡ t
unfolding lex
lex_total [] [] h k = refl
lex_total [] (d ∷ t) h k = cc
lex_total (c ∷ s) [] h k = cc
lex_total (c ∷ s) (d ∷ t) h k = ground (arith, lex_total s t)

-- Two keys are one exactly if `ci_fix` makes them equal.
pub same_key_iff : (ci : Bool) (a b : Str) → (same_key ci a b ≡ true) ↔ (ci_fix ci a ≡ ci_fix ci b)
unfolding same_key ci_cmp
same_key_iff ci a b = (
  λ h. ground (arith, lex_total (ci_fix ci a) (ci_fix ci b)),
  λ h. rw h (rw (lex_irrefl (ci_fix ci b)) refl),
)

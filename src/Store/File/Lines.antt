-- ===== src/Store/File/Lines.antt =====
-- The lines of the file of a `FileStore`: with `std::getline` for `sgl`, the loop over them.
use skivvy.Base.{
  ℕ, zero, suc, true, false, ◌≡◌, refl, ap, sym, ◌∙◌, ◌<◌, ◌⊎◌, inl, inr, some, [], ◌∷◌, ◌++◌,
  arith, ◌==◌, if◌then◌else◌, Str, length, length-append, Lacks, Bool-cases,
}
use skivvy.Hol.{Hol, IsHol}
use skivvy.Stream.{Stream, good, at_end, getline}
use skivvy.Stream.Laws.{getline_cut, getline_all}
use skivvy.Store.{lines}
use skivvy.Store.Backup.Text.{lines-append}
use skivvy.Store.File.{lines_loop, file_lines}

-- A text has no `d`, or is cut at its first `d`.
pub cut_first : (d : ℕ) (s : Str) → Lacks d s ⊎ ((l r : Str) × Lacks d l × (s ≡ l ++ d ∷ r))
cut_first d [] = inl tt
cut_first d (c ∷ s) = elim (Bool-cases (c == d)) [
  | inl e ↦ inr ([], s, tt, ground arith)
  | inr n ↦ elim (cut_first d s) [
    | inl h ↦ inl (ground arith, h)
    | inr (l, r, h, e) ↦ inr (c ∷ l, r, (ground arith, h), ap (◌∷◌ c) e)
  ]
]

pub lines_last : (c : ℕ) (l : Str) → Lacks 10 (c ∷ l) → lines (c ∷ l) ≡ (c ∷ l) ∷ []
unfolding lines
lines_last c [] h = ground arith
lines_last c (d ∷ l) (h, hs) = rw (lines_last d l hs) ground arith

module _ {h : Hol} (law : IsHol h) where
  loop_cons :
      (fuel : ℕ) (old line : Str) (is is' : Stream)
      → getline 10 old is ≡ (line, is')
      → lines_loop h (suc fuel) old is
        ≡ (if is'.fail then [] else line ∷ lines_loop h fuel line is')
  unfolding lines_loop
  loop_cons fuel old line is is' e =
      ap (λ (p : Str × Stream). if p.1.fail then [] else p.0 ∷ lines_loop h fuel p.0 p.1)
        (law.sgl_getline 10 old is ∙ e)

  loop_end : (fuel : ℕ) (old : Str) → lines_loop h fuel old (at_end false) ≡ []
  loop_end zero old = unfold lines_loop in refl
  loop_end (suc fuel) old =
      loop_cons fuel old old (at_end false) (at_end true) (unfold getline in refl)

  loop_lines : (fuel : ℕ) (old s : Str) → length s < fuel → lines_loop h fuel old (good s) ≡ lines s
  loop_lines zero old s lt = absurd (omega arith)
  loop_lines (suc fuel) old s lt = elim (cut_first 10 s) [
    | inl k ↦ last s k
    | inr (l, r, k, e) ↦
        let shorter : length r < fuel = ground (arith, length-append l (10 ∷ r)) in
        rw e (
          loop_cons fuel old l (good (l ++ 10 ∷ r)) (good r) (getline_cut 10 old l r k)
          ∙ ap (◌∷◌ l) (loop_lines fuel l r shorter)
          ∙ sym (lines-append l r k))
  ]
    where
      last : (s : Str) → Lacks 10 s → lines_loop h (suc fuel) old (good s) ≡ lines s
      last [] k =
          loop_cons fuel old [] (good []) (at_end true) (getline_all 10 old [] k)
          ∙ unfold lines in refl
      last (c ∷ l) k =
          loop_cons fuel old (c ∷ l) (good (c ∷ l)) (at_end false) (getline_all 10 old (c ∷ l) k)
          ∙ ap (◌∷◌ (c ∷ l)) (loop_end fuel (c ∷ l))
          ∙ sym (lines_last c l k)

  -- The rounds are enough: the loop reads every line of the file.
  pub file_lines-some : (s : Str) → file_lines h (some s) ≡ lines s
  unfolding file_lines
  file_lines-some s = loop_lines (suc (length s)) [] s (omega arith)

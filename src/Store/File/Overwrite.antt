-- ===== src/Store/File/Overwrite.antt =====
-- What a `FileStore` reads after a `save`: of the lines of other keys only the key parts were kept.
use skivvy.Base.{
  ℕ, Bool, true, false, ◌≡◌, refl, ap, sym, ◌∙◌, inl, inr, Option, none, some, List, [], ◌∷◌, ◌++◌,
  append_assoc, append-nil, arith, ◌&&◌, not, if◌then◌else◌, Str, Lacks, is_empty, is_space,
  Bool-cases, All, All-append, subst,
}
use skivvy.Hol.{Hol, IsHol}
use skivvy.Stream.{Stream, good, at_end, getline, skip_ws}
use skivvy.Stream.Laws.{getline_cut, getline_all}
use skivvy.Store.{lines}
use skivvy.Store.Backup.{entry_text}
use skivvy.Store.Backup.Text.{IsKey, lines-append, lines-Lacks}
use skivvy.Store.File.{
  FileStore, file_lines, key_and_value, same_fixed, value_under, values_under, load, key_part,
  kept_lines, lines_text, save, get_vec,
}
use skivvy.Store.File.Lines.{cut_first, file_lines-some}

-- A value that a line can hold: not empty, no space in front and no line feed.
abbrev pub IsValue : Str → Type 0
IsValue [] = ⊥
IsValue (c ∷ v) = (is_space c ≡ false) × Lacks 10 (c ∷ v)

abbrev entry_line : Str → Str → Str
entry_line k v = k ++ b':' ∷ b' ' ∷ v

entry_lines : Str → List Str → List Str
entry_lines k [] = []
entry_lines k (v ∷ vs) = entry_line k v ∷ entry_lines k vs

lines-lines_text :
    (ls : List Str) (rest : Str)
    → All (Lacks 10) ls
    → lines (lines_text ls ++ rest) ≡ ls ++ lines rest
lines-lines_text [] rest h = refl
lines-lines_text (l ∷ ls) rest (h, hs) =
    ap lines (append_assoc l (10 ∷ lines_text ls) rest)
    ∙ lines-append l (lines_text ls ++ rest) h
    ∙ ap (◌∷◌ l) (lines-lines_text ls rest hs)

lines-entry_text :
    (k : Str) (vs : List Str)
    → Lacks 10 k
    → All IsValue vs
    → lines (entry_text k vs) ≡ entry_lines k vs
unfolding entry_text entry_lines
lines-entry_text k [] hk h = unfold lines in refl
lines-entry_text k ([] ∷ vs) hk (h, hs) = absurd h
lines-entry_text k ((c ∷ v) ∷ vs) hk ((sp, h), hs) =
    let line = entry_line k (c ∷ v) in
    let start : (k ++ b':' ∷ b' ' ∷ (c ∷ v) ++ 10 ∷ []) ++ entry_text k vs
        ≡ line ++ 10 ∷ entry_text k vs =
      simp append_assoc in
    ap lines start
    ∙ lines-append line (entry_text k vs)
        (All-append _ k (b':' ∷ b' ' ∷ c ∷ v) hk (omega arith, (omega arith, h)))
    ∙ ap (◌∷◌ line) (lines-entry_text k vs hk hs)

values_under-append :
    (h : Hol) (ci : Bool) (j : Str) (xs ys : List Str)
    → values_under h ci j (xs ++ ys) ≡ values_under h ci j xs ++ values_under h ci j ys
unfolding values_under
values_under-append h ci j [] ys = refl
values_under-append h ci j (a ∷ xs) ys =
    ap (◌++◌ (value_under ci j (key_and_value h a))) (values_under-append h ci j xs ys)
    ∙ sym (append_assoc (value_under ci j (key_and_value h a)) _ _)

before-Lacks : (d : ℕ) (l r : Str) → Lacks d (l ++ r) → Lacks d l
before-Lacks d [] r k = tt
before-Lacks d (c ∷ l) r (k, ks) = (k, before-Lacks d l r ks)

module _ {h : Hol} (law : IsHol h) where
  key_and_value-cut :
      (line k v : Str) (is is' : Stream)
      → getline b':' [] (good line) ≡ (k, is)
      → getline 10 [] (skip_ws is) ≡ (v, is')
      → key_and_value h line ≡ (if is'.fail then none else some (k, v))
  unfolding key_and_value
  key_and_value-cut line k v is is' e f =
      ap
        (λ (p : Str × Stream).
          let q = h.sgl 10 [] (skip_ws p.1) in if q.1.fail then none else some (p.0, q.0))
        (law.sgl_getline b':' [] (good line) ∙ e)
      ∙ ap (λ (q : Str × Stream). if q.1.fail then none else some (k, q.0))
          (law.sgl_getline 10 [] (skip_ws is) ∙ f)

  -- A line with no colon has no value.
  no_value : (l : Str) → Lacks b':' l → key_and_value h l ≡ none
  no_value l k =
      let end = at_end (is_empty l) in
      key_and_value-cut l l [] end (at_end true) (getline_all b':' [] l k)
        (unfold getline skip_ws in refl)

  entry_value :
      (k v : Str) → Lacks b':' k → IsValue v → key_and_value h (entry_line k v) ≡ some (k, v)
  entry_value k [] hk hv = absurd hv
  entry_value k (c ∷ v) hk (sp, hv) =
      key_and_value-cut (entry_line k (c ∷ v)) k (c ∷ v) (good (b' ' ∷ c ∷ v)) (at_end false)
        (getline_cut b':' [] k (b' ' ∷ c ∷ v) hk) (skipped ∙ getline_all 10 [] (c ∷ v) hv)
    where
      skipped : getline 10 [] (skip_ws (good (b' ' ∷ c ∷ v))) ≡ getline 10 [] (good (c ∷ v))
      skipped = unfold skip_ws in rw sp refl

  values_under-no_colon :
      (ci : Bool) (j : Str) (ks : List Str) → All (Lacks b':') ks → values_under h ci j ks ≡ []
  unfolding values_under
  values_under-no_colon ci j [] k = refl
  values_under-no_colon ci j (l ∷ ls) (k, ks) = rw (no_value l k) (values_under-no_colon ci j ls ks)

  values_under-entry_lines :
      (ci : Bool) (j k : Str) (vs : List Str)
      → Lacks b':' k
      → All IsValue vs
      → values_under h ci j (entry_lines k vs) ≡ (if same_fixed ci k j then vs else [])
  unfolding values_under entry_lines
  values_under-entry_lines ci j k [] hk hv = ground arith
  values_under-entry_lines ci j k (v ∷ vs) hk (hv, hvs) =
      rw (entry_value k v hk hv) (ground (arith, values_under-entry_lines ci j k vs hk hvs))

  -- The key part of a line is a key.
  key_part-IsKey : (l : Str) → Lacks 10 l → IsKey (key_part h l).0
  unfolding key_part
  key_part-IsKey l k = elim (cut_first b':' l) [
    | inl f ↦ rw (law.sgl_getline b':' l (good l), getline_all b':' l l f) (f, k)
    | inr (a, r, f, e) ↦
        rw
          (
            law.sgl_getline b':' l (good l),
            ap (λ x. getline b':' l (good x)) e,
            getline_cut b':' l a r f,
          )
          (f, before-Lacks 10 a (b':' ∷ r) (subst (Lacks 10) e k))
  ]

  -- What `save` keeps is a list of keys.
  kept_keys :
      (ci : Bool) (key : Str) (ls : List Str)
      → All (Lacks 10) ls
      → (ks : List Str) × (kept_lines h ci key ls ≡ lines_text ks)
        × All (Lacks b':') ks
        × All (Lacks 10) ks
  unfolding kept_lines
  kept_keys ci key [] k = ([], refl, tt, tt)
  kept_keys ci key (l ∷ ls) (k, ks) =
      let (rest, e, f, g) = kept_keys ci key ls ks in
      let (a, b) = key_part-IsKey l k in
      elim (Bool-cases ((key_part h l).1 && not (same_fixed ci (key_part h l).0 key))) [
        | inl t ↦ ((key_part h l).0 ∷ rest, rw (t, e) refl, (a, f), (b, g))
        | inr n ↦ (rest, rw n e, f, g)
      ]

  file_lines-Lacks : (file : Option Str) → All (Lacks 10) (file_lines h file)
  file_lines-Lacks none = unfold file_lines in tt
  file_lines-Lacks (some s) = subst (All (Lacks 10)) (sym (file_lines-some law s)) (lines-Lacks s)

  -- The lines of the file after a `save`: keys alone, and the new entries.
  saved_lines :
      (k : Str) (vs : List Str) (s : FileStore)
      → s.writable ≡ true
      → IsKey k
      → All IsValue vs
      → (ks : List Str) × All (Lacks b':') ks
        × (file_lines h (save h k vs s).file ≡ ks ++ entry_lines k vs)
  unfolding save
  saved_lines k vs s w (hk, hn) hv =
      let (ks, e, f, g) = kept_keys s.ci k (file_lines h s.file) (file_lines-Lacks s.file) in
      let no_lines : lines [] ≡ [] = unfold lines in refl in
      let old : file_lines h (some (kept_lines h s.ci k (file_lines h s.file))) ≡ ks =
        ap (λ t. file_lines h (some t)) e
        ∙ file_lines-some law (lines_text ks)
        ∙ ap lines (sym (append-nil (lines_text ks)))
        ∙ lines-lines_text ks [] g
        ∙ ap (◌++◌ ks) no_lines
        ∙ append-nil ks in
      (
        ks,
        f,
        rw (w, old)
            (file_lines-some law (lines_text ks ++ entry_text k vs)
              ∙ lines-lines_text ks (entry_text k vs) g
              ∙ ap (◌++◌ ks) (lines-entry_text k vs hn hv)),
      )

  -- `ci` is not written.
  save-ci : (k : Str) (vs : List Str) (s : FileStore) → (save h k vs s).ci ≡ s.ci
  unfolding save
  save-ci k vs s = ground arith

  -- After a `save` the key has exactly the values that were given, and every other key has none,
  -- whatever the file held, if the file can be written, the key has no colon and no line feed, and each
  -- value is not empty, starts with no space and has no line feed.
  pub get_vec-save :
      (j k : Str) (vs : List Str) (s : FileStore)
      → s.writable ≡ true
      → IsKey k
      → All IsValue vs
      → get_vec h j (save h k vs s) ≡ (if same_fixed s.ci k j then vs else [])
  unfolding get_vec load
  get_vec-save j k vs s w (hk, hn) hv =
      let (ks, f, e) = saved_lines k vs s w (hk, hn) hv in
      rw (save-ci k vs s, e)
        (values_under-append h s.ci j ks (entry_lines k vs)
          ∙ ap (λ xs. xs ++ values_under h s.ci j (entry_lines k vs))
              (values_under-no_colon s.ci j ks f)
          ∙ values_under-entry_lines s.ci j k vs hk hv)

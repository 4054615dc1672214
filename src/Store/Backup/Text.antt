-- ===== src/Store/Backup/Text.antt =====
-- The file of a `BackupStore`: reading what was written pushes every value on its key's vector,
-- and whatever is read is a map that can be written.
use skivvy.Base.{
  ℕ, zero, suc, ◌+◌, Bool, ◌≡◌, refl, ap, ◌∙◌, inl, inr, Option, none, some, List, [], ◌∷◌, ◌++◌,
  append_assoc, arith, ◌==◌, if◌then◌else◌, Str, length, take, drop, find_char, find_char-append,
  take-append, All, All-append, Lacks, Option-cases,
}
use skivvy.Store.{StrVecMap, update, lines}
use skivvy.Store.Map.{IsSorted, update-IsSorted}
use skivvy.Store.Backup.{
  load_line, load_lines, load_file, entry_text, file_text, replace_entry, replace_store,
}

-- The key of an entry that can be written: no colon and no line feed.
abbrev pub IsKey : Str → Type 0
IsKey k = Lacks b':' k × Lacks 10 k

abbrev pub IsWritable : StrVecMap → Type 0
IsWritable m = All (λ (p : Str × List Str). IsKey p.0 × All (Lacks 10) p.1) m

pub lines-append : (l rest : Str) → Lacks 10 l → lines (l ++ 10 ∷ rest) ≡ l ∷ lines rest
unfolding lines
lines-append [] rest h = refl
lines-append (c ∷ l) rest (h, hs) = ground (arith, lines-append l rest hs)

drop_two : (k v : Str) → drop (length k + 2) (k ++ b':' ∷ b' ' ∷ v) ≡ v
drop_two [] v = refl
drop_two (c ∷ k) v =
    let e : suc (length k) + 2 ≡ suc (length k + 2) = omega arith in
    ap (λ n. drop n (c ∷ (k ++ b':' ∷ b' ' ∷ v))) e ∙ drop_two k v

load_line_entry :
    (ci : Bool) (k v : Str) (m : StrVecMap)
    → Lacks b':' k
    → load_line ci (k ++ b':' ∷ b' ' ∷ v) m ≡ update ci k (λ vs. vs ++ v ∷ []) m
unfolding load_line
load_line_entry ci k v m h =
    rw (
      load_line,
      find_char-append b':' k (b' ' ∷ v) h,
      take-append k (b':' ∷ b' ' ∷ v),
      drop_two k v,
    )

entry_regroup :
    (k v r : Str) → (k ++ b':' ∷ b' ' ∷ v ++ 10 ∷ []) ++ r ≡ (k ++ b':' ∷ b' ' ∷ v) ++ 10 ∷ r
entry_regroup k v r = simp append_assoc

entry-Lacks : (k v : Str) → Lacks 10 k → Lacks 10 v → Lacks 10 (k ++ b':' ∷ b' ' ∷ v)
entry-Lacks k v h g = All-append _ k (b':' ∷ b' ' ∷ v) h (omega arith, (omega arith, g))

step_line :
    (ci : Bool) (l : Str) (ls : List Str) (m : StrVecMap)
    → load_lines ci (l ∷ ls) m ≡ load_lines ci ls (load_line ci l m)
unfolding load_lines
step_line ci l ls m = refl

load_entry_text :
    (ci : Bool) (k : Str) (vs : List Str) (rest : Str) (m : StrVecMap)
    → IsKey k
    → All (Lacks 10) vs
    → load_lines ci (lines (entry_text k vs ++ rest)) m
      ≡ load_lines ci (lines rest) (replace_entry ci k vs m)
unfolding entry_text replace_entry
load_entry_text ci k [] rest m h g = refl
load_entry_text ci k (v ∷ vs) rest m (hc, hn) (g, gs) =
    rw
      (
        append_assoc (k ++ b':' ∷ b' ' ∷ v ++ 10 ∷ []) (entry_text k vs) rest,
        entry_regroup k v (entry_text k vs ++ rest),
        lines-append (k ++ b':' ∷ b' ' ∷ v) (entry_text k vs ++ rest) (entry-Lacks k v hn g),
      )
      (step_line ci (k ++ b':' ∷ b' ' ∷ v) (lines (entry_text k vs ++ rest)) m
        ∙ ap (load_lines ci (lines (entry_text k vs ++ rest))) (load_line_entry ci k v m hc)
        ∙ load_entry_text ci k vs rest (update ci k (λ vs. vs ++ v ∷ []) m) (hc, hn) gs)

load_file_text :
    (ci : Bool) (m acc : StrVecMap)
    → IsWritable m
    → load_lines ci (lines (file_text m)) acc ≡ replace_store ci m acc
unfolding file_text replace_store
load_file_text ci [] acc h = unfold load_lines lines in refl
load_file_text ci ((k, vs) ∷ m) acc ((hk, hv), h) =
    load_entry_text ci k vs (file_text m) acc hk hv
    ∙ load_file_text ci m (replace_entry ci k vs acc) h

-- Reading what was written of a map pushes its values, in order, on the vectors of an empty map.
pub load-file_text :
    (ci : Bool) (m : StrVecMap)
    → IsWritable m
    → load_file ci (some (file_text m)) ≡ replace_store ci m []
unfolding load_file
load-file_text ci m h = load_file_text ci m [] h

-- An update whose change keeps vectors without line feeds keeps a map that can be written.
pub update-IsWritable :
    (ci : Bool) (k : Str) (f : List Str → List Str) (m : StrVecMap)
    → IsKey k
    → ((vs : List Str) → All (Lacks 10) vs → All (Lacks 10) (f vs))
    → IsWritable m
    → IsWritable (update ci k f m)
unfolding update
update-IsWritable ci k f [] hk hf h = ((hk, hf [] tt), tt)
update-IsWritable ci k f ((j, vs) ∷ m) hk hf ((hj, hv), h) =
    ground (arith, update-IsWritable ci k f m hk hf h, hf [] tt, hf vs hv)

pub lines-Lacks : (s : Str) → All (Lacks 10) (lines s)
unfolding lines
lines-Lacks [] = tt
lines-Lacks (c ∷ s) = step c (lines s) (lines-Lacks s)
  where
    step :
        (c : ℕ) (ls : List Str)
        → All (Lacks 10) ls
        → All
            (Lacks 10)
            (if c == 10 then [] ∷ ls else elim ls [ [] ↦ (c ∷ []) ∷ [] | l ∷ r ↦ (c ∷ l) ∷ r ])
    step c [] h = ground arith
    step c (l ∷ ls) h = ground arith

take-Lacks : (d n : ℕ) (s : Str) → Lacks d s → Lacks d (take n s)
take-Lacks d zero s h = tt
take-Lacks d (suc n) [] h = tt
take-Lacks d (suc n) (c ∷ s) (h, hs) = (h, take-Lacks d n s hs)

drop-Lacks : (d n : ℕ) (s : Str) → Lacks d s → Lacks d (drop n s)
drop-Lacks d zero s h = h
drop-Lacks d (suc n) [] h = tt
drop-Lacks d (suc n) (c ∷ s) (h, hs) = drop-Lacks d n s hs

-- What stands before the first `d` holds no `d`.
before-Lacks : (d : ℕ) (s : Str) (pos : ℕ) → find_char d s ≡ some pos → Lacks d (take pos s)
before-Lacks d [] pos h = cc
before-Lacks d (c ∷ s) zero h = tt
before-Lacks d (c ∷ s) (suc pos) h =
    ground (arith, before-Lacks d s pos, Option-cases (find_char d s))

load_line_keeps :
    (ci : Bool) (line : Str) (m : StrVecMap)
    → Lacks 10 line
    → IsSorted ci m × IsWritable m
    → IsSorted ci (load_line ci line m) × IsWritable (load_line ci line m)
unfolding load_line
load_line_keeps ci line m h (s, w) = elim (Option-cases (find_char b':' line)) [
  | inl e ↦ rw (e, load_line) (s, w)
  | inr (pos, e) ↦
      rw (e, load_line)
        (
          update-IsSorted ci (take pos line) (λ vs. vs ++ drop (pos + 2) line ∷ []) m s,
          update-IsWritable ci (take pos line) (λ vs. vs ++ drop (pos + 2) line ∷ []) m
              (before-Lacks b':' line pos e, take-Lacks 10 pos line h)
              (λ vs g.
                All-append _ vs (drop (pos + 2) line ∷ []) g (drop-Lacks 10 (pos + 2) line h, tt))
              w,
        )
]

load_lines_keeps :
    (ci : Bool) (ls : List Str) (m : StrVecMap)
    → All (Lacks 10) ls
    → IsSorted ci m × IsWritable m
    → IsSorted ci (load_lines ci ls m) × IsWritable (load_lines ci ls m)
unfolding load_lines
load_lines_keeps ci [] m h w = w
load_lines_keeps ci (l ∷ ls) m (h, hs) w =
    load_lines_keeps ci ls (load_line ci l m) hs (load_line_keeps ci l m h w)

-- Whatever the file holds, the map that is read is sorted and can be written.
pub load_file_keeps :
    (ci : Bool) (file : Option Str)
    → IsSorted ci (load_file ci file) × IsWritable (load_file ci file)
unfolding load_file
load_file_keeps ci none = (tt, tt)
load_file_keeps ci (some text) = load_lines_keeps ci (lines text) [] (lines-Lacks text) (tt, tt)

-- ===== src/Store/Backup/Replace.antt =====
-- `replace_store` keeps the vectors of a sorted map, and so does writing and reading it.
use skivvy.Base.{
  Bool, true, false, ◌≡◌, ◌≢◌, refl, sym, ap, ◌∙◌, some, [], ◌∷◌, ◌++◌, append_assoc, append-nil,
  arith, if◌then◌else◌, Str, List,
}
use skivvy.Store.{StrVecMap, update, at, same_key}
use skivvy.Store.Map.{IsSorted, update-IsSorted, at-update, at-same, at-Above, same_refl}
use skivvy.Store.Backup.{
  Backup, bool_eq, load_file, file_text, replace_entry, replace_store, set_case,
}
use skivvy.Store.Backup.Text.{IsWritable, load-file_text}

module _ (ci : Bool) where
  replace_entry-IsSorted :
      (k : Str) (es : List Str) (m : StrVecMap)
      → IsSorted ci m
      → IsSorted ci (replace_entry ci k es m)
  unfolding replace_entry
  replace_entry-IsSorted k [] m s = s
  replace_entry-IsSorted k (e ∷ es) m s =
      replace_entry-IsSorted k es (update ci k (λ vs. vs ++ e ∷ []) m)
        (update-IsSorted ci k (λ vs. vs ++ e ∷ []) m s)

  at-replace_entry :
      (j k : Str) (es : List Str) (m : StrVecMap)
      → IsSorted ci m
      → at ci j (replace_entry ci k es m) ≡ (if same_key ci k j then at ci k m ++ es else at ci j m)
  unfolding replace_entry
  at-replace_entry j k [] m s = ground (arith, append-nil (at ci k m), at-same ci j k m)
  at-replace_entry j k (e ∷ es) m s =
      let m' = update ci k (λ vs. vs ++ e ∷ []) m in
      at-replace_entry j k es m' (update-IsSorted ci k (λ vs. vs ++ e ∷ []) m s)
      ∙ ground (
        arith,
        at-update ci j k (λ vs. vs ++ e ∷ []) m s,
        at-update ci k k (λ vs. vs ++ e ∷ []) m s,
        same_refl ci k,
        append_assoc (at ci k m) (e ∷ []) es,
      )

  at-replace_store :
      (j : Str) (m acc : StrVecMap)
      → IsSorted ci m
      → IsSorted ci acc
      → at ci j (replace_store ci m acc) ≡ at ci j acc ++ at ci j m
  unfolding replace_store at
  at-replace_store j [] acc s t = sym (append-nil (at ci j acc))
  at-replace_store j ((k, es) ∷ m) acc (a, s) t =
      at-replace_store j m (replace_entry ci k es acc) s (replace_entry-IsSorted k es acc t)
      ∙ ground (
        arith,
        at-replace_entry j k es acc t,
        at-same ci j k acc,
        at-Above ci k j m,
        append-nil (at ci j acc ++ es),
      )

  -- What is read from the text of a sorted map has the vectors of that map.
  pub at-load_file_text :
      (j : Str) (m : StrVecMap)
      → IsSorted ci m
      → IsWritable m
      → at ci j (load_file ci (some (file_text m))) ≡ at ci j m
  at-load_file_text j m s w =
      ap (at ci j) (load-file_text ci m w) ∙ at-replace_store j m [] s tt ∙ unfold at in refl

differ_false : (a b : Bool) → a ≢ b → bool_eq a b ≡ false
differ_false true true h = absurd (h refl)
differ_false true false h = refl
differ_false false true h = refl
differ_false false false h = absurd (h refl)

-- Changing the case sensitivity of a map that can be written makes the map that reading its text
-- under the new order makes.
pub set_case-load_file :
    (ci : Bool) (s : Backup)
    → s.ci ≢ ci
    → IsWritable s.store
    → (set_case ci s).store ≡ load_file ci (some (file_text s.store))
unfolding set_case
set_case-load_file ci s ne w = rw (differ_false s.ci ci ne) (sym (load-file_text ci s.store w))

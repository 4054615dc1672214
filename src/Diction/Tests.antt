-- ===== src/Diction/Tests.antt =====
-- Tests of `!langs`.
use skivvy.Base.{
  ◌≡◌, refl, List, [], ◌≢◌, ◌∷◌, ◌++◌, ◌≤◌, ◌+◌, ◌⊎◌, map, arith, Str, codes, length, All, to_lower,
}
use skivvy.Diction.{langmap, entry, langs_loop, header, none_found, is_asked, langs}
use skivvy.Diction.Pages.{asked_of, listing, joined, langs-pages}

abbrev lowered : Str → Str
lowered = map to_lower

abbrev kept : Str → Str
kept s = s

langmap-short : All (λ l. length (entry l) ≤ 27) langmap
langmap-short = omega arith

langs-pages_example :
    ((asked_of (is_asked lowered kept (kept (lowered (codes "ian")))) langmap ≡ [])
      × (langs lowered kept langmap (codes "ian") ≡ none_found ∷ []))
    ⊎ ((asked_of (is_asked lowered kept (kept (lowered (codes "ian")))) langmap ≢ [])
        × (ts : List Str) × (langs lowered kept langmap (codes "ian") ≡ map (λ t. header ++ t) ts)
        × (joined ts
            ≡ listing [] (asked_of (is_asked lowered kept (kept (lowered (codes "ian")))) langmap))
        × All (λ t. length t ≤ 202 + 27) ts)
langs-pages_example = langs-pages lowered kept 27 langmap (codes "ian") langmap-short

langs_test :
    (langs lowered kept langmap (codes "NISH")
      ≡ (header ++ codes "da: Danish, es: Spanish, fi: Finnish") ∷ [])
    × (langs lowered kept langmap (codes "klingon") ≡ none_found ∷ [])
unfolding langs langs_loop
langs_test = (refl, refl)

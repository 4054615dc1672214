-- ===== src/Net/Ends.antt =====
-- The replacing loops of src/network.cpp end: theorem.
use skivvy.Base.{
  ℕ, zero, suc, ◌+◌, ◌≤◌, ◌<◌, true, ◌≡◌, refl, ap, ◌∙◌, inl, inr, none, some, [], ◌∷◌, ◌++◌, arith,
  Str, length, drop, length-append, All, Bool-cases, Option-cases,
}
use skivvy.Hol.{is_prefix}
use skivvy.Store.{lex}
use skivvy.Net.Url.{
  StrMap, put_str, put_strs, replace_once, replace_while, replace_each, ents, fix_entities,
  url_code, url_codes, urldecode,
}
use skivvy.Net.Decoded.{put_str-All}
use skivvy.Net.Marked.{while_done, while_more, each_more}

abbrev Shorter : Str × Str → Type 0
Shorter p = length p.1 < length p.0

drop-prefix : (k s : Str) → is_prefix k s ≡ true → length (drop (length k) s) + length k ≡ length s
drop-prefix [] s h = omega arith
drop-prefix (c ∷ k) [] h = cc
drop-prefix (c ∷ k) (d ∷ s) h = ground (arith, drop-prefix k s)

replace_once-Shorter :
    (k v s t : Str) → Shorter (k, v) → replace_once k v s ≡ some t → length t < length s
unfolding replace_once
replace_once-Shorter [] v [] t h e = absurd (omega arith)
replace_once-Shorter (x ∷ k) v [] t h e = cc
replace_once-Shorter k v (c ∷ s) t h e = elim (Bool-cases (is_prefix k (c ∷ s))) [
  | inl p ↦
      let q : v ++ drop (length k) (c ∷ s) ≡ t = ground arith in
      omega
        (arith, ap length q, length-append {0} v (drop (length k) (c ∷ s)), drop-prefix k (c ∷ s) p)
  | inr p ↦ elim (Option-cases (replace_once k v s)) [
    | inl o ↦ ground arith
    | inr (u, o) ↦
        let q : c ∷ u ≡ t = ground arith in
        omega (arith, ap length q, replace_once-Shorter k v s u h o)
  ]
]

-- The text that the loop over one key leaves has no more bytes.
replace_while_ends :
    (fuel : ℕ) (k v s : Str)
    → Shorter (k, v)
    → length s < fuel
    → (t : Str) × (replace_while fuel k v s ≡ some t)
      × (length t ≤ length s)
      × (replace_once k v t ≡ none)
replace_while_ends zero k v s h l = absurd (omega arith)
replace_while_ends (suc fuel) k v s h l = elim (Option-cases (replace_once k v s)) [
  | inl o ↦ (s, while_done fuel k v s o, omega arith, o)
  | inr (u, o) ↦
      let lt = replace_once-Shorter k v s u h o in
      let (t, e, le, n) = replace_while_ends fuel k v u h (omega (arith, lt)) in
      (t, while_more fuel k v s u o ∙ e, omega (arith, lt, le), n)
]

replace_each_ends :
    (m : StrMap) (s : Str)
    → All Shorter m
    → (t : Str) × (replace_each m s ≡ some t) × (length t ≤ length s)
unfolding replace_each
replace_each_ends [] s h = (s, refl, omega arith)
replace_each_ends ((k, v) ∷ m) s (h, hs) =
    let (u, e, le, n) = replace_while_ends (suc (length s)) k v s h (omega arith) in
    let (t, f, le') = replace_each_ends m u hs in
    (t, each_more k v s u m e ∙ f, omega (arith, le, le'))

ents-Shorter : All Shorter ents
unfolding ents put_strs put_str lex
ents-Shorter = omega arith

url_codes-Shorter : (n : ℕ) → All Shorter (url_codes n)
unfolding url_codes url_code
url_codes-Shorter zero = tt
url_codes-Shorter (suc n) =
    put_str-All Shorter _ _ _ (omega arith)
      (put_str-All Shorter _ _ _ (omega arith) (url_codes-Shorter n))

-- Whatever the text, the loops of `fix_entities` and `urldecode` end with the fuel that they are
-- given, one more than its bytes for each key; neither makes a text longer.
pub fix_entities-urldecode_end :
    (s : Str)
    → ((t : Str) × (fix_entities s ≡ some t) × (length t ≤ length s))
      × ((t : Str) × (urldecode s ≡ some t) × (length t ≤ length s))
unfolding fix_entities urldecode
fix_entities-urldecode_end s = (
  replace_each_ends ents s ents-Shorter,
  replace_each_ends (url_codes 256) s (url_codes-Shorter 256),
)

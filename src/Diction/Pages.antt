-- ===== src/Diction/Pages.antt =====
-- The pages of `!langs`: every language that was asked for once, in order, on pages of bounded size.
use skivvy.Base.{
  ℕ, ◌+◌, ◌≤◌, Bool, true, false, ◌≡◌, refl, ap, sym, subst, ◌∙◌, inl, inr, ◌⊎◌, List, [], ◌≢◌, ◌∷◌,
  ◌++◌, append_assoc, append-nil, arith, ltb, if◌then◌else◌, Str, codes, is_empty, length,
  length-append, map, All, All-append, Bool-cases,
}
use skivvy.Diction.{
  Page, flush, entry, put_language, langs_loop, no_page, header, none_found, replies_of, is_asked,
  langs,
}

-- The languages that pass a test.
abbrev pub asked_of : (Str × Str → Bool) → List (Str × Str) → List (Str × Str)
asked_of p [] = []
asked_of p (l ∷ ls) = let rest = asked_of p ls in if p l then l ∷ rest else rest

-- The entries, a separator in front of the first and a comma between two.
abbrev pub listing : Str → List (Str × Str) → Str
listing sep [] = []
listing sep (l ∷ ls) = sep ++ (entry l ++ listing (codes ", ") ls)

abbrev pub joined : List Str → Str
joined [] = []
joined (t ∷ ts) = t ++ joined ts

joined-append : (ts us : List Str) → joined (ts ++ us) ≡ joined ts ++ joined us
joined-append [] us = refl
joined-append (t ∷ ts) us =
    ap (◌++◌ t) (joined-append ts us) ∙ sym (append_assoc t (joined ts) (joined us))

text : Page → Str
text s = joined s.sent ++ s.oss

flush-text : (s : Page) → text (flush s) ≡ text s
unfolding text
flush-text s = elim (Bool-cases (ltb 200 (length s.oss))) [
  | inl t ↦ rw t (
      append-nil (joined (s.sent ++ s.oss ∷ []))
      ∙ joined-append s.sent (s.oss ∷ [])
      ∙ ap (◌++◌ (joined s.sent)) (append-nil s.oss))
  | inr f ↦ rw f refl
]

flush-sep : (s : Page) → (flush s).sep ≡ s.sep
flush-sep s = ground arith

put_language-text :
    (l : Str × Str) (s : Page) → text (put_language l s) ≡ text s ++ (s.sep ++ entry l)
unfolding text
put_language-text l s = sym (append_assoc (joined s.sent) s.oss (s.sep ++ entry l))

loop-text :
    (p : Str × Str → Bool) (ls : List (Str × Str)) (s : Page)
    → text (langs_loop p ls s) ≡ text s ++ listing s.sep (asked_of p ls)
unfolding langs_loop
loop-text p [] s = sym (append-nil (text s))
loop-text p (l ∷ ls) s = elim (Bool-cases (p l)) [
  | inl t ↦
      let rest = listing (codes ", ") (asked_of p ls) in
      rw t (
        loop-text p ls (put_language l (flush s))
        ∙ ap (λ x. x ++ rest) (put_language-text l (flush s))
        ∙ ap (λ x. (x ++ ((flush s).sep ++ entry l)) ++ rest) (flush-text s)
        ∙ ap (λ x. (text s ++ (x ++ entry l)) ++ rest) (flush-sep s)
        ∙ append_assoc (text s) (s.sep ++ entry l) rest
        ∙ ap (◌++◌ (text s)) (append_assoc s.sep (entry l) rest))
  | inr f ↦ rw f (loop-text p ls s)
]

-- No page is longer than `202 + b`, where no entry is longer than `b`.
record IsShort (b : ℕ) (s : Page) : Type 0 where
  oss_short : length s.oss ≤ 202 + b
  sep_short : length s.sep ≤ 2
  sent_short : All (λ t. length t ≤ 202 + b) s.sent

flush-IsShort :
    (b : ℕ) (s : Page) → IsShort b s → IsShort b (flush s) × (length (flush s).oss ≤ 200)
flush-IsShort b s h = elim (Bool-cases (ltb 200 (length s.oss))) [
  | inl t ↦ rw t (
    record {
      oss_short = omega arith;
      sep_short = h.sep_short;
      sent_short = All-append _ s.sent (s.oss ∷ []) h.sent_short (h.oss_short, tt);
    },
    omega arith,
  )
  | inr f ↦ rw f (h, ground (arith, f))
]

put_language-IsShort :
    (b : ℕ) (l : Str × Str) (s : Page)
    → length (entry l) ≤ b
    → IsShort b s
    → length s.oss ≤ 200
    → IsShort b (put_language l s)
put_language-IsShort b l s e h k = record {
  oss_short =
      subst (λ n. n ≤ 202 + b) (sym (length-append s.oss (s.sep ++ entry l)))
        (omega (arith, length-append s.sep (entry l), e, h.sep_short, k));
  sep_short = omega arith;
  sent_short = h.sent_short;
}

loop-IsShort :
    (b : ℕ) (p : Str × Str → Bool) (ls : List (Str × Str)) (s : Page)
    → All (λ l. length (entry l) ≤ b) ls
    → IsShort b s
    → IsShort b (langs_loop p ls s)
unfolding langs_loop
loop-IsShort b p [] s e h = h
loop-IsShort b p (l ∷ ls) s (e, es) h = elim (Bool-cases (p l)) [
  | inl t ↦
      let (k, m) = flush-IsShort b s h in
      rw t (
        loop-IsShort b p ls (put_language l (flush s)) es
          (put_language-IsShort b l (flush s) e k m))
  | inr f ↦ rw f (loop-IsShort b p ls s es h)
]

is_empty-right : (s t : Str) → is_empty t ≡ false → is_empty (s ++ t) ≡ false
is_empty-right [] t e = e
is_empty-right (c ∷ s) t e = refl

is_empty-left : (s t : Str) → is_empty s ≡ false → is_empty (s ++ t) ≡ false
is_empty-left [] t e = cc
is_empty-left (c ∷ s) t e = refl

put_language-oss : (l : Str × Str) (s : Page) → is_empty (put_language l s).oss ≡ false
put_language-oss (k, v) s = is_empty-right s.oss (s.sep ++ entry (k, v)) (
    is_empty-right s.sep (entry (k, v))
      (is_empty-left (k ++ codes ": ") v (is_empty-right k (codes ": ") refl)))

loop-yes :
    (p : Str × Str → Bool) (l : Str × Str) (ls : List (Str × Str)) (s : Page)
    → p l ≡ true
    → langs_loop p (l ∷ ls) s ≡ langs_loop p ls (put_language l (flush s))
unfolding langs_loop
loop-yes p l ls s t = rw t refl

loop-no :
    (p : Str × Str → Bool) (l : Str × Str) (ls : List (Str × Str)) (s : Page)
    → p l ≡ false
    → langs_loop p (l ∷ ls) s ≡ langs_loop p ls s
unfolding langs_loop
loop-no p l ls s f = rw f refl

-- A page that has begun stays begun.
loop-begun :
    (p : Str × Str → Bool) (ls : List (Str × Str)) (s : Page)
    → is_empty s.oss ≡ false
    → is_empty (langs_loop p ls s).oss ≡ false
loop-begun p [] s e = unfold langs_loop in e
loop-begun p (l ∷ ls) s e = elim (Bool-cases (p l)) [
  | inl t ↦
      ap (λ x. is_empty x.oss) (loop-yes p l ls s t)
      ∙ loop-begun p ls (put_language l (flush s)) (put_language-oss l (flush s))
  | inr f ↦ ap (λ x. is_empty x.oss) (loop-no p l ls s f) ∙ loop-begun p ls s e
]

-- Either no language is asked for, and nothing changes, or a page has begun at the end.
loop-ends :
    (p : Str × Str → Bool) (ls : List (Str × Str)) (s : Page)
    → ((asked_of p ls ≡ []) × (langs_loop p ls s ≡ s)) ⊎ (is_empty (langs_loop p ls s).oss ≡ false)
loop-ends p [] s = inl (refl, unfold langs_loop in refl)
loop-ends p (l ∷ ls) s = elim (Bool-cases (p l)) [
  | inl t ↦ inr (
      ap (λ x. is_empty x.oss) (loop-yes p l ls s t)
      ∙ loop-begun p ls (put_language l (flush s)) (put_language-oss l (flush s)))
  | inr f ↦ elim (loop-ends p ls s) [
    | inl (a, b) ↦ inl (rw f a, loop-no p l ls s f ∙ b)
    | inr e ↦ inr (ap (λ x. is_empty x.oss) (loop-no p l ls s f) ∙ e)
  ]
]

replies_of-begun :
    (s : Page)
    → is_empty s.oss ≡ false
    → replies_of s ≡ map (λ t. header ++ t) (s.sent ++ s.oss ∷ [])
replies_of-begun s e = elim (Bool-cases s.found) [ inl t ↦ rw (t, e) refl | inr f ↦ rw (f, e) refl ]

-- If no entry of the list is longer than `b`, `langs` replies that there is none where no language is
-- asked for, and only then; else it replies pages that together hold the entry of every language asked for, once and in
-- the order of the list, with a comma between two, and no page is longer than `202 + b` behind its
-- header. That holds whatever `lowercase` and `trim` do.
pub langs-pages :
    (lowercase trim : Str → Str) (b : ℕ) (ls : List (Str × Str)) (params : Str)
    → All (λ l. length (entry l) ≤ b) ls
    → ((asked_of (is_asked lowercase trim (trim (lowercase params))) ls ≡ [])
        × (langs lowercase trim ls params ≡ none_found ∷ []))
      ⊎ ((asked_of (is_asked lowercase trim (trim (lowercase params))) ls ≢ [])
          × (ts : List Str) × (langs lowercase trim ls params ≡ map (λ t. header ++ t) ts)
          × (joined ts
              ≡ listing [] (asked_of (is_asked lowercase trim (trim (lowercase params))) ls))
          × All (λ t. length t ≤ 202 + b) ts)
unfolding langs
langs-pages lowercase trim b ls params h =
    let p = is_asked lowercase trim (trim (lowercase params)) in
    let s = langs_loop p ls no_page in
    elim (loop-ends p ls no_page) [
      | inl (a, e) ↦ inl (a, ap replies_of e)
      | inr e ↦
          let first : IsShort b no_page = record {
            oss_short = omega arith;
            sep_short = omega arith;
            sent_short = tt;
          } in
          let short = loop-IsShort b p ls no_page h first in
          let whole : joined (s.sent ++ s.oss ∷ []) ≡ text s =
            unfold text in
            joined-append s.sent (s.oss ∷ []) ∙ ap (◌++◌ (joined s.sent)) (append-nil s.oss) in
          let start : text s ≡ listing [] (asked_of p ls) = unfold text in loop-text p ls no_page in
          let some_asked : asked_of p ls ≢ [] = λ none_asked.
            let empty : text s ≡ [] = start ∙ ap (listing []) none_asked in
            let full : is_empty (text s) ≡ false =
              unfold text in is_empty-right (joined s.sent) s.oss e in
            let contra : is_empty (text s) ≡ true = ap is_empty empty in cc in
          inr (
            some_asked,
            s.sent ++ s.oss ∷ [],
            replies_of-begun s e,
            whole ∙ start,
            All-append _ s.sent (s.oss ∷ []) short.sent_short (short.oss_short, tt),
          )
    ]

-- ===== src/Stream/Laws.antt =====
-- What the stream operations do on a good stream whose text is known in parts.
use skivvy.Base.{
  ℕ, true, false, ◌≡◌, ◌≢◌, refl, none, some, [], ◌∷◌, ◌++◌, arith, Str, is_space, is_empty, Lacks,
  All,
}
use skivvy.Stream.{good, at_end, cut_at, cut_word, getline, read_word}

abbrev pub NoSpace : Str → Type 0
NoSpace = All (λ c. is_space c ≡ false)

cut_at-append : (d : ℕ) (s t : Str) → Lacks d s → cut_at d (s ++ d ∷ t) ≡ (s, some t)
cut_at-append d [] t h = ground arith
cut_at-append d (c ∷ s) t (h, hs) = ground (arith, cut_at-append d s t hs)

cut_at-all : (d : ℕ) (s : Str) → Lacks d s → cut_at d s ≡ (s, none)
cut_at-all d [] h = refl
cut_at-all d (c ∷ s) (h, hs) = ground (arith, cut_at-all d s hs)

pub getline_cut :
    (d : ℕ) (old s t : Str) → Lacks d s → getline d old (good (s ++ d ∷ t)) ≡ (s, good t)
unfolding getline
getline_cut d old s t h = rw (cut_at-append d s t h)

pub getline_all :
    (d : ℕ) (old s : Str) → Lacks d s → getline d old (good s) ≡ (s, at_end (is_empty s))
unfolding getline
getline_all d old s h = ground (arith, cut_at-all d s h)

cut_word-append :
    (c : ℕ) (s t : Str) → is_space c ≡ true → NoSpace s → cut_word (s ++ c ∷ t) ≡ (s, c ∷ t)
cut_word-append c [] t e h = ground arith
cut_word-append c (d ∷ s) t e (h, hs) = ground (arith, cut_word-append c s t e hs)

cut_word-all : (s : Str) → NoSpace s → cut_word s ≡ (s, [])
cut_word-all [] h = refl
cut_word-all (d ∷ s) (h, hs) = ground (arith, cut_word-all s hs)

pub read_word_cut :
    (c : ℕ) (old s t : Str)
    → is_space c ≡ true
    → NoSpace s
    → s ≢ []
    → read_word old (good (s ++ c ∷ t)) ≡ (s, good (c ∷ t))
unfolding read_word
read_word_cut c old [] t e h ne = absurd (ne refl)
read_word_cut c old (d ∷ s) t e (h, hs) ne = ground (arith, cut_word-append c s t e hs)

pub read_word_all : (old s : Str) → NoSpace s → s ≢ [] → read_word old (good s) ≡ (s, at_end false)
unfolding read_word
read_word_all old [] h ne = absurd (ne refl)
read_word_all old (d ∷ s) (h, hs) ne = ground (arith, cut_word-all s hs)

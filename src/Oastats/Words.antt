-- ===== src/Oastats/Words.antt =====
-- Reading words off a stream, `ios::getstring` of src/ios.cpp: the words come to an end.
use skivvy.Base.{
  ℕ, ◌≤◌, ◌<◌, Bool, true, false, ◌≡◌, refl, [], ◌∷◌, ◌||◌, arith, ◌==◌, if◌then◌else◌, Str, length,
  subst, some, is_empty, Bool-cases, inl, inr,
}
use skivvy.Stream.{Stream, good, set_fail, peek, get, skip_ws, skip_space}
use skivvy.Bot.Text.{getstring, until_term}

until_term-length : (t : ℕ) (s : Str) → length (until_term t s).1 ≤ length s
unfolding until_term
until_term-length t [] = omega arith
until_term-length t (c ∷ s) = ground (arith, until_term-length t s)

until_term-shorter :
    (t : ℕ) (s : Str) → is_empty (until_term t s).0 ≡ false → length (until_term t s).1 < length s
unfolding until_term
until_term-shorter t [] e = cc
until_term-shorter t (c ∷ s) e = ground (arith, until_term-length t s, e)

skip_space-length : (s : Str) → length (skip_space s) ≤ length s
skip_space-length [] = omega arith
skip_space-length (c ∷ s) = ground (arith, skip_space-length s)

peek_cons : (c : ℕ) (r : Str) → peek (good (c ∷ r)) ≡ (some c, good (c ∷ r))
peek_cons c r = unfold peek in refl

get_cons : (c : ℕ) (r : Str) → get (good (c ∷ r)) ≡ (some c, good r)
get_cons c r = unfold get in refl

skip_cons : (b : Str) (c : ℕ) (r : Str) → skip_space b ≡ c ∷ r → skip_ws (good b) ≡ good (c ∷ r)
skip_cons b c r e = unfold skip_ws in rw e refl

-- What is read up to the terminator `t`.
unfoldable pub word_to : Str → ℕ → Str → Str × Stream
word_to old t s =
    let (n, rest) = until_term t s in
    if is_empty n then (old, set_fail (good rest)) else (n, good rest)

word_to-shorter :
    (old : Str) (t : ℕ) (s : Str)
    → (word_to old t s).1.fail ≡ false
    → length (word_to old t s).1.buf < length s
unfolding word_to
word_to-shorter old t s e = elim (Bool-cases (is_empty (until_term t s).0)) [
  | inl y ↦ let f : (word_to old t s).1.fail ≡ true = rw y refl in cc
  | inr n ↦ rw n (until_term-shorter t s n)
]

getstring_quoted :
    (old b : Str) (c : ℕ) (r : Str)
    → skip_space b ≡ c ∷ r
    → (c == 34 || c == 39) ≡ true
    → getstring old (good b) ≡ word_to old c r
unfolding getstring word_to
getstring_quoted old b c r e q = rw (skip_cons b c r e, peek_cons c r, q, get_cons c r) refl

pub getstring_plain :
    (old b : Str) (c : ℕ) (r : Str)
    → skip_space b ≡ c ∷ r
    → (c == 34 || c == 39) ≡ false
    → getstring old (good b) ≡ word_to old b' ' (c ∷ r)
unfolding getstring word_to
getstring_plain old b c r e q = rw (skip_cons b c r e, peek_cons c r, q) refl

getstring_failed :
    (old b : Str) (eof fail : Bool)
    → (eof || fail) ≡ true
    → (getstring old (record { buf = b; eof = eof; fail = fail })).1.fail ≡ true
unfolding getstring skip_ws peek
getstring_failed old b true fail t = refl
getstring_failed old b false true t = refl
getstring_failed old b false false t = cc

getstring_empty : (old b : Str) → skip_space b ≡ [] → (getstring old (good b)).1.fail ≡ true
unfolding getstring skip_ws peek
getstring_empty old b e = rw e refl

good_shorter :
    (old b r : Str)
    → skip_space b ≡ r
    → length r ≤ length b
    → (getstring old (good b)).1.fail ≡ false
    → length (getstring old (good b)).1.buf < length b
good_shorter old b [] e l k = let f = getstring_empty old b e in cc
good_shorter old b (c ∷ r) e l k = elim (Bool-cases (c == 34 || c == 39)) [
  | inl q ↦
      let g = getstring_quoted old b c r e q in
      let short = word_to-shorter old c r (subst (λ p. p.1.fail ≡ false) g k) in
      rw g (omega (arith, l, short))
  | inr n ↦
      let g = getstring_plain old b c r e n in
      let short = word_to-shorter old b' ' (c ∷ r) (subst (λ p. p.1.fail ≡ false) g k) in
      rw g (omega (arith, l, short))
]

-- A word that is read takes bytes off the stream.
pub getstring-shorter :
    (old b : Str) (eof fail : Bool)
    → (getstring old (record { buf = b; eof = eof; fail = fail })).1.fail ≡ false
    → length (getstring old (record { buf = b; eof = eof; fail = fail })).1.buf < length b
getstring-shorter old b false false k =
    good_shorter old b (skip_space b) refl (skip_space-length b) k
getstring-shorter old b true fail k = let f = getstring_failed old b true fail refl in cc
getstring-shorter old b false true k = let f = getstring_failed old b false true refl in cc

-- ===== src/Net/Plain.antt =====
-- The text of a page, src/network.cpp: theorem.
use skivvy.Base.{
  ◌≢◌, ◌/◌, ◌%◌, is_alnum, subst, sym, Bool-cases, inl, inr, ℕ, zero, suc, ◌≤◌, ◌<◌, Bool, true,
  false, ◌≡◌, refl, ap, ◌∙◌, Option, none, some, List, [], ◌∷◌, ◌++◌, arith, Str, All, Lacks,
  length, length-append, if◌then◌else◌, append-nil,
}
use skivvy.Store.{lex}
use skivvy.Stream.{Stream, good, at_end, getline}
use skivvy.Stream.Laws.{getline_cut, getline_all}
use skivvy.Net.Url.{
  StrMap, put_strs, put_str, replace_once, replace_each, ents, fix_entities, url_code, url_codes,
  urldecode, urlencode, hex_digit,
}
use skivvy.Net.Decoded.{put_str-All, hex_text-url, urldecode-urlencode}
use skivvy.Net.Marked.{IsSafe, while_done, each_more}
use skivvy.Net.Html.{decode_text, add_text, text_loop, html_to_text}

-- The keys begin with `d`.
BeginsWith : ℕ → Str × Str → Type 0
BeginsWith d ([], v) = ⊥
BeginsWith d (c ∷ k, v) = c ≡ d

replace_once-Lacks :
    (d : ℕ) (k v s : Str) → BeginsWith d (k, v) → Lacks d s → replace_once k v s ≡ none
unfolding replace_once BeginsWith
replace_once-Lacks d [] v s b h = absurd b
replace_once-Lacks d (c ∷ k) v [] b h = refl
replace_once-Lacks d (c ∷ k) v (e ∷ s) b (h, hs) =
    ground (arith, replace_once-Lacks d (c ∷ k) v s b hs)

replace_each-Lacks :
    (d : ℕ) (m : StrMap) (s : Str) → All (BeginsWith d) m → Lacks d s → replace_each m s ≡ some s
unfolding replace_each
replace_each-Lacks d [] s b h = refl
replace_each-Lacks d ((k, v) ∷ m) s (b, bs) h =
    each_more k v s s m (while_done (length s) k v s (replace_once-Lacks d k v s b h))
    ∙ replace_each-Lacks d m s bs h

ents-BeginsWith : All (BeginsWith b'&') ents
unfolding ents put_strs put_str lex BeginsWith
ents-BeginsWith = omega arith

url_codes-BeginsWith : (n : ℕ) → All (BeginsWith b'%') (url_codes n)
unfolding url_codes url_code BeginsWith
url_codes-BeginsWith zero = tt
url_codes-BeginsWith (suc n) =
    put_str-All (BeginsWith b'%') _ _ _ refl
      (put_str-All (BeginsWith b'%') _ _ _ refl (url_codes-BeginsWith n))

-- A text without marks, entities and codes.
abbrev pub IsText : Str → Type 0
IsText s = Lacks b'<' s × Lacks b'&' s × Lacks b'%' s

decode_text-IsText : (text : Str) → IsText text → decode_text text ≡ some text
unfolding decode_text fix_entities urldecode
decode_text-IsText text (a, b, c) =
    ap (λ (o : Option Str). elim o [ none ↦ none | some t ↦ urldecode t ])
      (replace_each-Lacks b'&' ents text ents-BeginsWith b)
    ∙ replace_each-Lacks b'%' (url_codes 256) text (url_codes-BeginsWith 256) c

alnum-ne : (c d : ℕ) → is_alnum c ≡ true → is_alnum d ≡ false → c ≢ d
alnum-ne c d a b e = let f : is_alnum d ≡ true = subst (λ x. is_alnum x ≡ true) e a in cc

hex_digit-alnum : (x : ℕ) → x < 16 → is_alnum (hex_digit x) ≡ true
hex_digit-alnum x h = ground arith

-- What is encoded holds letters, digits and percent signs.
urlencode-Lacks :
    (d : ℕ) (s : Str) → is_alnum d ≡ false → b'%' ≢ d → All IsSafe s → Lacks d (urlencode s)
unfolding urlencode url_code
urlencode-Lacks d [] a p h = tt
urlencode-Lacks d (c ∷ s) a p ((l, u, n), h) = elim (Bool-cases (is_alnum c)) [
  | inl e ↦ rw e (alnum-ne c d e a, urlencode-Lacks d s a p h)
  | inr e ↦
      let code : Lacks d (url_code c ++ urlencode s) = (
        p,
        (
          alnum-ne (hex_digit (c / 16)) d (hex_digit-alnum (c / 16) (omega arith)) a,
          (
            alnum-ne (hex_digit (c % 16)) d (hex_digit-alnum (c % 16) (omega arith)) a,
            urlencode-Lacks d s a p h,
          ),
        ),
      ) in
      rw e (subst (λ t. Lacks d (t ++ urlencode s)) (sym (hex_text-url c l u)) code)
]

-- A piece of text on a page: as it is, or encoded.
pub data Piece : Type 0 where
  plain : Str → Piece
  coded : Str → Piece

-- How the piece stands on the page, and what it says.
abbrev pub raw : Piece → Str
raw (plain s) = s
raw (coded s) = urlencode s

abbrev pub said : Piece → Str
said (plain s) = s
said (coded s) = s

abbrev pub IsPiece : Piece → Type 0
IsPiece (plain s) = IsText s
IsPiece (coded s) = All IsSafe s

-- A page: a piece, and each tag with the piece behind it.
abbrev pub page : Piece → List (Str × Piece) → Str
page p [] = raw p
page p ((tag, next) ∷ ps) = raw p ++ b'<' ∷ (tag ++ b'>' ∷ page next ps)

abbrev pub page_text : Piece → List (Str × Piece) → Str
page_text p [] = said p
page_text p ((tag, next) ∷ ps) = said p ++ page_text next ps

abbrev pub IsPage : List (Str × Piece) → Type 0
IsPage = All (λ (p : Str × Piece). Lacks b'>' p.0 × IsPiece p.1)

raw-Lacks : (p : Piece) → IsPiece p → Lacks b'<' (raw p)
raw-Lacks (plain s) h = h.0
raw-Lacks (coded s) h = urlencode-Lacks b'<' s refl (omega arith) h

decode_text-raw : (p : Piece) → IsPiece p → decode_text (raw p) ≡ some (said p)
decode_text-raw (plain s) h = decode_text-IsText s h
decode_text-raw (coded s) h =
    unfold decode_text fix_entities in
    (ap (λ (o : Option Str). elim o [ none ↦ none | some t ↦ urldecode t ])
        (replace_each-Lacks b'&' ents (urlencode s) ents-BeginsWith
          (urlencode-Lacks b'&' s refl (omega arith) h))
      ∙ urldecode-urlencode s h)

-- One round of the loop, from what the two reads return.
round_text :
    (fuel : ℕ) (s : Str) (is : Stream) (p q : Str × Stream)
    → getline b'<' s is ≡ p
    → getline b'>' p.0 p.1 ≡ q
    → text_loop (suc fuel) s is
      ≡ (if p.1.fail then some [] else add_text (decode_text p.0) (text_loop fuel q.0 q.1))
unfolding text_loop
round_text fuel s is p q e f =
    ap
      (λ (p : Str × Stream).
        let (s2, is2) = getline b'>' p.0 p.1 in
        if p.1.fail then some [] else add_text (decode_text p.0) (text_loop fuel s2 is2))
      e
    ∙ ap
        (λ (q : Str × Stream).
          if p.1.fail then some [] else add_text (decode_text p.0) (text_loop fuel q.0 q.1))
        f

failed :
    (d : ℕ) (old s : Str) (e : Bool)
    → getline d old (record { buf = s; eof = e; fail = true })
      ≡ (old, record { buf = s; eof = e; fail = true })
unfolding getline
failed d old s true = refl
failed d old s false = refl

ended : (d : ℕ) (old : Str) (e : Bool) → getline d old (at_end e) ≡ (old, at_end true)
unfolding getline
ended d old e = refl

last_text :
    (fuel : ℕ) (s text u : Str)
    → Lacks b'<' text
    → decode_text text ≡ some u
    → text_loop (suc (suc fuel)) s (good text) ≡ some u
last_text fuel s [] u h e =
    round_text (suc fuel) s (good []) _ _ (getline_all b'<' s [] tt) (ended b'>' [] true)
    ∙ sym (decode_text-IsText [] (tt, tt, tt))
    ∙ e
last_text fuel s (c ∷ t) u h e =
    round_text (suc fuel) s (good (c ∷ t)) _ _ (getline_all b'<' s (c ∷ t) h)
      (ended b'>' (c ∷ t) false)
    ∙ ap (λ (r : Option Str). add_text (decode_text (c ∷ t)) r)
        (round_text fuel (c ∷ t) (at_end true) _ _ (ended b'<' (c ∷ t) true)
          (ended b'>' (c ∷ t) true))
    ∙ ap (λ (o : Option Str). add_text o (some [])) e
    ∙ ap some (append-nil u)

step_text :
    (fuel : ℕ) (s text u tag rest r : Str)
    → Lacks b'<' text
    → decode_text text ≡ some u
    → Lacks b'>' tag
    → text_loop fuel tag (good rest) ≡ some r
    → text_loop (suc fuel) s (good (text ++ b'<' ∷ (tag ++ b'>' ∷ rest))) ≡ some (u ++ r)
step_text fuel s text u tag rest r h d t e =
    round_text fuel s _ _ _ (getline_cut b'<' s text (tag ++ b'>' ∷ rest) h)
      (getline_cut b'>' text tag rest t)
    ∙ ap (λ (o : Option Str). add_text o (text_loop fuel tag (good rest))) d
    ∙ ap (add_text (some u)) e

loop_text :
    (ps : List (Str × Piece)) (fuel : ℕ) (s : Str) (p : Piece)
    → IsPiece p
    → IsPage ps
    → suc (length ps) < fuel
    → text_loop fuel s (good (page p ps)) ≡ some (page_text p ps)
loop_text ps zero s p h k l = absurd (omega arith)
loop_text ps (suc zero) s p h k l = absurd (omega arith)
loop_text [] (suc (suc fuel)) s p h k l =
    last_text fuel s (raw p) (said p) (raw-Lacks p h) (decode_text-raw p h)
loop_text ((tag, next) ∷ ps) (suc (suc fuel)) s p h ((t, n), ks) l =
    step_text (suc fuel) s (raw p) (said p) tag (page next ps) (page_text next ps) (raw-Lacks p h)
      (decode_text-raw p h) t (loop_text ps (suc fuel) tag next n ks (omega arith))

length-page : (ps : List (Str × Piece)) (p : Piece) → length ps ≤ length (page p ps)
length-page [] p = omega arith
length-page ((tag, next) ∷ ps) p = omega (
  arith,
  length-page ps next,
  length-append {0} (raw p) (b'<' ∷ (tag ++ b'>' ∷ page next ps)),
  length-append {0} tag (b'>' ∷ page next ps),
)

-- Of a page of pieces of text with tags between them, `html_to_text` leaves exactly what the pieces say, in
-- order, and it ends. A piece is text without any of the bytes `<`, `&` and `%`, which says itself, or what
-- `urlencode` makes of a text of bytes from 16 to 127 but `%`, and says that text, its `<` and `&` with it.
-- No tag holds a `>`.
pub html_to_text-page :
    (p : Piece) (ps : List (Str × Piece))
    → IsPiece p
    → IsPage ps
    → html_to_text (page p ps) ≡ some (page_text p ps)
unfolding html_to_text
html_to_text-page p ps h k =
    loop_text ps (suc (suc (length (page p ps)))) [] p h k (omega (arith, length-page ps p))

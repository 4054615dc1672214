-- ===== src/Utils/Wild.antt =====
-- `wild_replace` and `prompt_color` of src/utils.cpp, and what a pattern with stars is replaced by.
use skivvy.Base.{
  ℕ, ◌+◌, ◌%◌, Bool, true, false, ◌||◌, ◌≡◌, refl, ap, ◌∙◌, List, [], ◌∷◌, ◌++◌, append_assoc,
  append-nil, sym, else_of, arith, leb, ◌&&◌, ltb, ◌==◌, if◌then◌else◌, Str, codes, is_nil, drop,
  length,
}
use skivvy.Hol.{is_prefix}
use skivvy.Bot.Text.{to_string}

abbrev pub first_of : List Str → Str
first_of [] = []
first_of (r ∷ rs) = r

abbrev pub rest_of : List Str → List Str
rest_of [] = []
rest_of (r ∷ rs) = rs

-- The loop over the bytes of `wild`; `picks` has what the calls of `hol::random_element` return.
unfoldable pub wild_loop : Str → List Str → Bool → Str
wild_loop [] picks esc = []
wild_loop (c ∷ s) picks esc =
    let plain = wild_loop s picks false in
    let escaped = wild_loop s picks true in
    let after = wild_loop s (rest_of picks) false in
    if esc
    then c ∷ plain
    else if c == b'\\'
    then escaped
    else if c == b'*'
    then first_of picks ++ after
    else c ∷ plain

unfoldable pub wild_replace : Str → List Str → List Str → Str
wild_replace wild replacements picks =
    if is_nil replacements then wild else wild_loop wild picks false

-- The background that `bg` has for a color; white, yellow and the light colors have black.
abbrev pub background : ℕ → Str
background i =
    if (i == 0 || i == 8) || (leb 9 i && leb i 13) || i == 15 then codes "01" else codes "15"

-- The sum of the bytes of a name, of which only the remainder by 16 counts, so that signed bytes and 64
-- bits make no difference.
abbrev pub sum_bytes : Str → ℕ
sum_bytes [] = 0
sum_bytes (c ∷ s) = c + sum_bytes s

unfoldable pub prompt_color : Str → Str
prompt_color seed =
    let name = if is_prefix (codes "do_") seed && ltb 3 (length seed) then drop 3 seed else seed in
    let idx = sum_bytes name % 16 in
    let num = to_string idx in
    let col = if ltb (length num) 2 then b'0' ∷ num else num in
    2 ∷ 3 ∷ (col ++ b',' ∷ (background idx ++ (name ++ b':' ∷ 15 ∷ b' ' ∷ [])))

-- Text that stands for itself in a pattern.
abbrev pub protect : Str → Str
protect [] = []
protect (c ∷ s) = if c == b'\\' || c == b'*' then b'\\' ∷ c ∷ protect s else c ∷ protect s

-- A pattern of pieces with stars between them, and the pieces with what replaces the stars.
abbrev pub starred : Str → List Str → Str
starred p [] = protect p
starred p (q ∷ ps) = protect p ++ b'*' ∷ starred q ps

abbrev pub filled : Str → List Str → List Str → Str
filled p [] picks = p
filled p (q ∷ ps) [] = p ++ filled q ps []
filled p (q ∷ ps) (r ∷ picks) = p ++ r ++ filled q ps picks

wild_loop-protect :
    (p rest : Str) (picks : List Str)
    → wild_loop (protect p ++ rest) picks false ≡ p ++ wild_loop rest picks false
unfolding wild_loop
wild_loop-protect [] rest picks = refl
wild_loop-protect (c ∷ p) rest picks = ground (arith, wild_loop-protect p rest picks)

wild_loop-starred :
    (p : Str) (ps picks : List Str) → wild_loop (starred p ps) picks false ≡ filled p ps picks
unfolding wild_loop
wild_loop-starred p [] picks =
    ap (λ (s : Str). wild_loop s picks false) (sym (append-nil (protect p)))
    ∙ wild_loop-protect p [] picks
    ∙ append-nil p
wild_loop-starred p (q ∷ ps) [] =
    wild_loop-protect p (b'*' ∷ starred q ps) []
    ∙ ap (λ (s : Str). p ++ s) (wild_loop-starred q ps [])
wild_loop-starred p (q ∷ ps) (r ∷ picks) =
    wild_loop-protect p (b'*' ∷ starred q ps) (r ∷ picks)
    ∙ ap (λ (s : Str). p ++ (r ++ s)) (wild_loop-starred q ps picks)
    ∙ sym (append_assoc p r (filled q ps picks))

-- A pattern of pieces, in which every star and backslash of its own has a backslash before it, with
-- stars between them: `wild_replace` gives the pieces, and for each star what the call of
-- `random_element` for it returned, in order.
pub wild_replace-filled :
    (p : Str) (ps replacements picks : List Str)
    → is_nil replacements ≡ false
    → wild_replace (starred p ps) replacements picks ≡ filled p ps picks
unfolding wild_replace
wild_replace-filled p ps replacements picks h = else_of _ _ _ h ∙ wild_loop-starred p ps picks

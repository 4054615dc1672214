-- ===== src/Net/Html.antt =====
-- src/network.cpp: elements of HTML, and their text.
use skivvy.Base.{
  ℕ, zero, suc, Bool, not, ◌&&◌, ◌||◌, Option, none, some, [], ◌∷◌, ◌++◌, if◌then◌else◌, Str,
  is_empty, length,
}
use skivvy.Hol.{is_prefix}
use skivvy.Stream.{Stream, good, getline}
use skivvy.Net.Url.{fix_entities, urldecode}

-- `s.find(t) != npos`
unfoldable pub has_str : Str → Str → Bool
has_str t [] = is_empty t
has_str t (c ∷ s) = is_prefix t (c ∷ s) || has_str t s

-- What `read_tag` writes behind the tag: up to the tag that closes it. `s` is what was read last.
unfoldable pub tag_loop : ℕ → Str → Str → Stream → Str × Stream
tag_loop zero tag s is = ([], is)
tag_loop (suc fuel) tag s is =
    let (s1, is1) = getline b'>' s is in
    let (s2, is2) = getline b'<' s1 is1 in
    let (os, is') = tag_loop fuel tag s2 is2 in
    if is1.fail || has_str (b'/' ∷ tag) s1
    then ([], is1)
    else (b'<' ∷ (s1 ++ b'>' ∷ ((if is2.fail then [] else s2) ++ os)), is')

-- `std::getline(is, s, '<')` with what it reads written, and the loop
unfoldable pub tag_body : Str → Str → Stream → Str × Stream
tag_body tag s is =
    let (s1, is1) = getline b'<' s is in
    let (os, is2) = tag_loop (suc (length is1.buf)) tag s1 is1 in
    ((if is1.fail then [] else s1) ++ os, is2)

-- The search for the tag, which `wanted` tells; `s` is what was read last.
unfoldable pub find_tag : ℕ → (Str → Bool) → Str → Str → Stream → Str × Stream
find_tag zero wanted tag s is = ([], is)
find_tag (suc fuel) wanted tag s is =
    let (s1, is1) = getline b'<' s is in
    let (s2, is2) = getline b'>' s1 is1 in
    let rest = find_tag fuel wanted tag s2 is2 in
    if is1.fail then ([], is1) else if not is2.fail && wanted s2 then tag_body tag s2 is2 else rest

-- `read_tag(is, os, tag)`: what it writes, and the stream
unfoldable pub read_tag : Str → Stream → Str × Stream
read_tag tag is = find_tag (suc (length is.buf)) (is_prefix tag) tag [] is

unfoldable pub read_tag_by_att : Str → Str → Str → Stream → Str × Stream
read_tag_by_att tag att val is =
    let att1 = att ++ b'=' ∷ 39 ∷ (val ++ 39 ∷ []) in
    let att2 = att ++ b'=' ∷ 34 ∷ (val ++ 34 ∷ []) in
    find_tag (suc (length is.buf)) (λ s. is_prefix tag s && (has_str att1 s || has_str att2 s)) tag
      [] is

-- `urldecode(fix_entities(s))`; `none` stands for a replacing loop that has not ended.
unfoldable pub decode_text : Str → Option Str
decode_text s = elim (fix_entities s) [ none ↦ none | some t ↦ urldecode t ]

abbrev pub add_text : Option Str → Option Str → Option Str
add_text none rest = none
add_text (some u) none = none
add_text (some u) (some r) = some (u ++ r)

-- The loop of `html_to_text(i, o)`.
unfoldable pub text_loop : ℕ → Str → Stream → Option Str
text_loop zero s is = none
text_loop (suc fuel) s is =
    let (s1, is1) = getline b'<' s is in
    let (s2, is2) = getline b'>' s1 is1 in
    let rest = text_loop fuel s2 is2 in if is1.fail then some [] else add_text (decode_text s1) rest

unfoldable pub html_to_text : Str → Option Str
html_to_text html = text_loop (suc (suc (length html))) [] (good html)

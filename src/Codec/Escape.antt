-- ===== src/Codec/Escape.antt =====
-- `unescape` undoes `escape`, and an escaped text holds no delimiter.
use skivvy.Base.{
  ℕ, ◌&&◌, ◌≡◌, ◌≢◌, sym, ap, ◌∙◌, [], ◌∷◌, ◌++◌, arith, leb, ◌==◌, if◌then◌else◌, Str, Lacks, All,
  All-append,
}
use skivvy.Hol.{Hol, IsHol}
use skivvy.Codec.{escape, unescape}

-- The code of a byte when the first `n` of the four rules have been applied.
esc : ℕ → ℕ → Str
esc n c =
    if c == b'\\' && leb 1 n
    then b'\\' ∷ b'0' ∷ []
    else if c == b'{' && leb 2 n
    then b'\\' ∷ b'1' ∷ []
    else if c == b'}' && leb 3 n
    then b'\\' ∷ b'2' ∷ []
    else if c == b',' && leb 4 n
    then b'\\' ∷ b'3' ∷ []
    else c ∷ []

encode : ℕ → Str → Str
encode n [] = []
encode n (c ∷ s) = esc n c ++ encode n s

module _ {h : Hol} (l : IsHol h) where
  open l use {replace_all_nil, replace_all_hit, replace_all_miss}

  rule_backslash : (s : Str) → h.replace_all s (b'\\' ∷ []) (b'\\' ∷ b'0' ∷ []) ≡ encode 1 s
  unfolding encode esc
  rule_backslash [] = replace_all_nil _ _
  rule_backslash (c ∷ s) = ground (
    arith,
    rule_backslash s,
    replace_all_hit (b'\\' ∷ []) (b'\\' ∷ b'0' ∷ []) s (cc),
    replace_all_miss (b'\\' ∷ []) (b'\\' ∷ b'0' ∷ []) s c,
  )

  rule_open : (s : Str) → h.replace_all (encode 1 s) (b'{' ∷ []) (b'\\' ∷ b'1' ∷ []) ≡ encode 2 s
  unfolding encode esc
  rule_open [] = replace_all_nil _ _
  rule_open (c ∷ s) = ground (
    arith,
    rule_open s,
    replace_all_hit (b'{' ∷ []) (b'\\' ∷ b'1' ∷ []) (encode 1 s) (cc),
    replace_all_miss (b'{' ∷ []) (b'\\' ∷ b'1' ∷ []) (encode 1 s) c,
    replace_all_miss (b'{' ∷ []) (b'\\' ∷ b'1' ∷ []) (b'0' ∷ (encode 1 s)) b'\\',
    replace_all_miss (b'{' ∷ []) (b'\\' ∷ b'1' ∷ []) (encode 1 s) b'0',
  )

  rule_close : (s : Str) → h.replace_all (encode 2 s) (b'}' ∷ []) (b'\\' ∷ b'2' ∷ []) ≡ encode 3 s
  unfolding encode esc
  rule_close [] = replace_all_nil _ _
  rule_close (c ∷ s) = ground (
    arith,
    rule_close s,
    replace_all_hit (b'}' ∷ []) (b'\\' ∷ b'2' ∷ []) (encode 2 s) (cc),
    replace_all_miss (b'}' ∷ []) (b'\\' ∷ b'2' ∷ []) (encode 2 s) c,
    replace_all_miss (b'}' ∷ []) (b'\\' ∷ b'2' ∷ []) (b'0' ∷ (encode 2 s)) b'\\',
    replace_all_miss (b'}' ∷ []) (b'\\' ∷ b'2' ∷ []) (encode 2 s) b'0',
    replace_all_miss (b'}' ∷ []) (b'\\' ∷ b'2' ∷ []) (b'1' ∷ (encode 2 s)) b'\\',
    replace_all_miss (b'}' ∷ []) (b'\\' ∷ b'2' ∷ []) (encode 2 s) b'1',
  )

  rule_comma : (s : Str) → h.replace_all (encode 3 s) (b',' ∷ []) (b'\\' ∷ b'3' ∷ []) ≡ encode 4 s
  unfolding encode esc
  rule_comma [] = replace_all_nil _ _
  rule_comma (c ∷ s) = ground (
    arith,
    rule_comma s,
    replace_all_hit (b',' ∷ []) (b'\\' ∷ b'3' ∷ []) (encode 3 s) (cc),
    replace_all_miss (b',' ∷ []) (b'\\' ∷ b'3' ∷ []) (encode 3 s) c,
    replace_all_miss (b',' ∷ []) (b'\\' ∷ b'3' ∷ []) (b'0' ∷ (encode 3 s)) b'\\',
    replace_all_miss (b',' ∷ []) (b'\\' ∷ b'3' ∷ []) (encode 3 s) b'0',
    replace_all_miss (b',' ∷ []) (b'\\' ∷ b'3' ∷ []) (b'1' ∷ (encode 3 s)) b'\\',
    replace_all_miss (b',' ∷ []) (b'\\' ∷ b'3' ∷ []) (encode 3 s) b'1',
    replace_all_miss (b',' ∷ []) (b'\\' ∷ b'3' ∷ []) (b'2' ∷ (encode 3 s)) b'\\',
    replace_all_miss (b',' ∷ []) (b'\\' ∷ b'3' ∷ []) (encode 3 s) b'2',
  )

  undo_comma : (s : Str) → h.replace_all (encode 4 s) (b'\\' ∷ b'3' ∷ []) (b',' ∷ []) ≡ encode 3 s
  unfolding encode esc
  undo_comma [] = replace_all_nil _ _
  undo_comma (c ∷ s) = ground (
    arith,
    undo_comma s,
    replace_all_hit (b'\\' ∷ b'3' ∷ []) (b',' ∷ []) (encode 4 s) (cc),
    replace_all_miss (b'\\' ∷ b'3' ∷ []) (b',' ∷ []) (encode 4 s) c,
    replace_all_miss (b'\\' ∷ b'3' ∷ []) (b',' ∷ []) (b'0' ∷ (encode 4 s)) b'\\',
    replace_all_miss (b'\\' ∷ b'3' ∷ []) (b',' ∷ []) (encode 4 s) b'0',
    replace_all_miss (b'\\' ∷ b'3' ∷ []) (b',' ∷ []) (b'1' ∷ (encode 4 s)) b'\\',
    replace_all_miss (b'\\' ∷ b'3' ∷ []) (b',' ∷ []) (encode 4 s) b'1',
    replace_all_miss (b'\\' ∷ b'3' ∷ []) (b',' ∷ []) (b'2' ∷ (encode 4 s)) b'\\',
    replace_all_miss (b'\\' ∷ b'3' ∷ []) (b',' ∷ []) (encode 4 s) b'2',
  )

  undo_close : (s : Str) → h.replace_all (encode 3 s) (b'\\' ∷ b'2' ∷ []) (b'}' ∷ []) ≡ encode 2 s
  unfolding encode esc
  undo_close [] = replace_all_nil _ _
  undo_close (c ∷ s) = ground (
    arith,
    undo_close s,
    replace_all_hit (b'\\' ∷ b'2' ∷ []) (b'}' ∷ []) (encode 3 s) (cc),
    replace_all_miss (b'\\' ∷ b'2' ∷ []) (b'}' ∷ []) (encode 3 s) c,
    replace_all_miss (b'\\' ∷ b'2' ∷ []) (b'}' ∷ []) (b'0' ∷ (encode 3 s)) b'\\',
    replace_all_miss (b'\\' ∷ b'2' ∷ []) (b'}' ∷ []) (encode 3 s) b'0',
    replace_all_miss (b'\\' ∷ b'2' ∷ []) (b'}' ∷ []) (b'1' ∷ (encode 3 s)) b'\\',
    replace_all_miss (b'\\' ∷ b'2' ∷ []) (b'}' ∷ []) (encode 3 s) b'1',
  )

  undo_open : (s : Str) → h.replace_all (encode 2 s) (b'\\' ∷ b'1' ∷ []) (b'{' ∷ []) ≡ encode 1 s
  unfolding encode esc
  undo_open [] = replace_all_nil _ _
  undo_open (c ∷ s) = ground (
    arith,
    undo_open s,
    replace_all_hit (b'\\' ∷ b'1' ∷ []) (b'{' ∷ []) (encode 2 s) (cc),
    replace_all_miss (b'\\' ∷ b'1' ∷ []) (b'{' ∷ []) (encode 2 s) c,
    replace_all_miss (b'\\' ∷ b'1' ∷ []) (b'{' ∷ []) (b'0' ∷ (encode 2 s)) b'\\',
    replace_all_miss (b'\\' ∷ b'1' ∷ []) (b'{' ∷ []) (encode 2 s) b'0',
  )

  undo_backslash : (s : Str) → h.replace_all (encode 1 s) (b'\\' ∷ b'0' ∷ []) (b'\\' ∷ []) ≡ s
  unfolding encode esc
  undo_backslash [] = replace_all_nil _ _
  undo_backslash (c ∷ s) = ground (
    arith,
    undo_backslash s,
    replace_all_hit (b'\\' ∷ b'0' ∷ []) (b'\\' ∷ []) (encode 1 s) (cc),
    replace_all_miss (b'\\' ∷ b'0' ∷ []) (b'\\' ∷ []) (encode 1 s) c,
  )

  escape-encode : (s : Str) → escape h s ≡ encode 4 s
  unfolding escape
  escape-encode s = rw (escape, rule_backslash s, rule_open s, rule_close s, rule_comma s)

  -- `unescape` undoes `escape`, for every string.
  pub unescape-escape : (s : Str) → unescape h (escape h s) ≡ s
  unfolding unescape
  unescape-escape s =
      rw (escape-encode s)
        (rw (unescape, undo_comma s, undo_close s, undo_open s, undo_backslash s))

-- Neither bracket nor comma, nor a line feed that the text has not.
abbrev pub IsPlain : ℕ → Type 0
IsPlain c = (c ≢ b'{') × (c ≢ b'}') × (c ≢ b',')

esc-IsPlain : (c : ℕ) → All IsPlain (esc 4 c)
unfolding esc
esc-IsPlain c = ground arith

encode-IsPlain : (s : Str) → All IsPlain (encode 4 s)
unfolding encode
encode-IsPlain [] = tt
encode-IsPlain (c ∷ s) =
    All-append IsPlain (esc 4 c) (encode 4 s) (esc-IsPlain c) (encode-IsPlain s)

-- An escaped string holds no bracket and no comma.
pub escape-IsPlain : {h : Hol} (l : IsHol h) (s : Str) → All IsPlain (escape h s)
escape-IsPlain l s = rw (escape-encode l s) (encode-IsPlain s)

esc-Lacks : (c : ℕ) → c ≢ 10 → Lacks 10 (esc 4 c)
unfolding esc
esc-Lacks c h = ground arith

encode-Lacks : (s : Str) → Lacks 10 s → Lacks 10 (encode 4 s)
unfolding encode
encode-Lacks [] h = tt
encode-Lacks (c ∷ s) (h, hs) =
    All-append _ (esc 4 c) (encode 4 s) (esc-Lacks c h) (encode-Lacks s hs)

-- Escaping adds no line feed.
pub escape-Lacks : {h : Hol} (l : IsHol h) (s : Str) → Lacks 10 s → Lacks 10 (escape h s)
escape-Lacks l s k = rw (escape-encode l s) (encode-Lacks s k)

pub unescape-nil : {h : Hol} (l : IsHol h) → unescape h [] ≡ []
unfolding encode
unescape-nil l = sym (ap (unescape _) (escape-encode l [])) ∙ unescape-escape l []

-- ===== src/Stream.antt =====
-- `std::istringstream` as the program uses it: the bytes not yet read and the state bits.
-- `badbit` never arises on a string stream. Each operation first builds a sentry, which fails on
-- a stream that is not good, so a second `peek` at the end of the text sets `failbit`.
pub mod Laws
use skivvy.Base.{
  ℕ, Bool, true, false, ◌||◌, Option, none, some, List, [], ◌∷◌, ◌++◌, ◌==◌, if◌then◌else◌, Str,
  is_space, is_empty,
}

pub record Stream : Type 0 where
  pub buf : Str
  pub eof : Bool
  pub fail : Bool

-- A stream freshly made from a string, `siss(s)`.
abbrev pub good : Str → Stream
good s = record { buf = s; eof = false; fail = false }

-- The end of the text has been met; `at_end false` still converts to true.
abbrev pub at_end : Bool → Stream
at_end f = record { buf = []; eof = true; fail = f }

abbrev pub set_fail : Stream → Stream
set_fail s = record s { fail = true }

-- `is.clear()`.
abbrev pub clear : Stream → Stream
clear s = record s { eof = false; fail = false }

peek_buf : Str → Stream → Option ℕ × Stream
peek_buf [] s = (none, record s { eof = true })
peek_buf (c ∷ r) s = (some c, s)

-- `is.peek()`; `none` is `EOF`.
unfoldable pub peek : Stream → Option ℕ × Stream
unfolding peek_buf
peek s = if s.eof || s.fail then (none, set_fail s) else peek_buf s.buf s

get_buf : Str → Stream → Option ℕ × Stream
get_buf [] s = (none, record s { eof = true; fail = true })
get_buf (c ∷ r) s = (some c, record s { buf = r })

-- `is.get(c)` and `is.get()`.
unfoldable pub get : Stream → Option ℕ × Stream
unfolding get_buf
get s = if s.eof || s.fail then (none, set_fail s) else get_buf s.buf s

ignore_buf : Str → Stream → Stream
ignore_buf [] s = record s { eof = true }
ignore_buf (c ∷ r) s = record s { buf = r }

-- `is.ignore()`: one byte; the end of the text is no failure.
unfoldable pub ignore : Stream → Stream
unfolding ignore_buf
ignore s = if s.eof || s.fail then set_fail s else ignore_buf s.buf s

-- The bytes before the first `d`, and whether there was one, with what follows it.
abbrev pub cut_at : ℕ → Str → Str × Option Str
cut_at d [] = ([], none)
cut_at d (c ∷ r) =
    let (line, rest) = cut_at d r in if c == d then ([], some r) else (c ∷ line, rest)

getline_buf : Str × Option Str → Str × Stream
getline_buf (line, some r) = (line, good r)
getline_buf (line, none) = (line, at_end (is_empty line))

-- `std::getline(is, s, d)`: the second argument is the old value of `s`, kept if the sentry fails.
unfoldable pub getline : ℕ → Str → Stream → Str × Stream
unfolding getline_buf
getline d old s = if s.eof || s.fail then (old, set_fail s) else getline_buf (cut_at d s.buf)

abbrev pub skip_space : Str → Str
skip_space [] = []
skip_space (c ∷ r) = if is_space c then skip_space r else c ∷ r

-- The bytes before the first space, and the rest with that space.
abbrev pub cut_word : Str → Str × Str
cut_word [] = ([], [])
cut_word (c ∷ r) =
    let (word, rest) = cut_word r in if is_space c then ([], c ∷ r) else (c ∷ word, rest)

word_buf : Str → Str → Str × Stream
word_buf old [] = (old, at_end true)
word_buf old (c ∷ r) =
    let (word, rest) = cut_word (c ∷ r) in
    (word, record { buf = rest; eof = is_empty rest; fail = false })

-- `is >> s`: the sentry skips spaces first.
unfoldable pub read_word : Str → Stream → Str × Stream
unfolding word_buf
read_word old s = if s.eof || s.fail then (old, set_fail s) else word_buf old (skip_space s.buf)

-- `is >> std::ws`.
unfoldable pub skip_ws : Stream → Stream
skip_ws s =
    if s.eof || s.fail
    then set_fail s
    else let r = skip_space s.buf in record { buf = r; eof = is_empty r; fail = false }

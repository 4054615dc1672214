-- ===== src/Params.antt =====
-- The parameter grammar of an IRC message, src/message.cpp: `message::gettrailing`,
-- `message::getmiddle` and `message::getparams` over a string stream, with its state bits.

pub mod Grammar
pub mod RoundTrip
pub mod Sound
use skivvy.Base.{
  ℕ, zero, suc, Bool, true, false, not, ◌||◌, Option, none, some, List, [], ◌∷◌, ◌++◌, ◌==◌,
  if◌then◌else◌, Str, length, has_char,
}
use skivvy.Stream.{Stream, good, clear, set_fail, peek, get}

-- `CSTRING` takes `sizeof` of the literal, so the NUL that ends it belongs to each set.
abbrev pub nospcrlfcl : Str
nospcrlfcl = 0 ∷ b' ' ∷ 13 ∷ 10 ∷ b':' ∷ 0 ∷ []

abbrev pub nospcrlf : Str
nospcrlf = 0 ∷ b' ' ∷ 13 ∷ 10 ∷ 0 ∷ []

abbrev pub nocrlf : Str
nocrlf = 0 ∷ 13 ∷ 10 ∷ 0 ∷ []

-- Whether what `peek` returned is in a set; `EOF` is in none.
abbrev pub in_set : Str → Option ℕ → Bool
in_set set none = false
in_set set (some c) = has_char set c

abbrev pub peek_is : ℕ → Option ℕ → Bool
peek_is d none = false
peek_is d (some c) = c == d

-- The loop of `gettrailing`; every round that goes on reads a byte, and the fuel is one more than
-- the bytes there are.
trailing_loop : ℕ → Stream → Str → Str × Stream
trailing_loop zero is trailing = (trailing, is)
trailing_loop (suc fuel) is trailing = elim is.fail [
  | true ↦ (trailing, is)
  | false ↦
      let (p, is1) = peek is in
      let (c, is2) = get is1 in
      elim (in_set nocrlf p) [
        | true ↦ (trailing, is1)
        | false ↦ elim c [
          | none ↦ (trailing, is2)
          | some b ↦ trailing_loop fuel is2 (trailing ++ b ∷ [])
        ]
      ]
]

abbrev clear_eof : Str × Stream → Str × Stream
clear_eof (t, is) = (t, if is.eof then clear is else is)

unfoldable pub gettrailing : Stream → Str × Stream
unfolding trailing_loop
gettrailing is = clear_eof (trailing_loop (suc (length is.buf)) is [])

-- `char(is.get())`: at the end of the text this is `char(EOF)`.
abbrev got : Option ℕ → ℕ
got none = 255
got (some b) = b

-- The loop of `getmiddle`, with the same fuel.
middle_loop : ℕ → Stream → Str → Str × Stream
middle_loop zero is middle = (middle, is)
middle_loop (suc fuel) is middle = elim is.fail [
  | true ↦ (middle, is)
  | false ↦
      let (p, is1) = peek is in
      elim p [
        | none ↦ (middle, is1)
        | some a ↦
            let (q, is2) = peek is1 in
            let (c, is3) = get is2 in
            elim (in_set nospcrlf q) [
              | true ↦ (middle, is2)
              | false ↦ middle_loop fuel is3 (middle ++ got c ∷ [])
            ]
      ]
]

unfoldable pub getmiddle : Stream → Str × Stream
unfolding middle_loop
getmiddle is =
    let (p, is1) = if is.fail then (none, is) else peek is in
    if in_set nospcrlfcl p
    then ([], set_fail is1)
    else (let (c, is2) = get is1 in middle_loop (suc (length is2.buf)) is2 (got c ∷ []))

pub record Params : Type 0 where
  pub middles : List Str
  pub trailing : Str
  pub is : Stream

abbrev with_trailing : List Str → Str × Stream → Params
with_trailing ms (t, is) = record { middles = ms; trailing = t; is = is }

abbrev no_trailing : List Str → Stream → Params
no_trailing ms is = record { middles = ms; trailing = []; is = is }

-- Behind the loop with `n == 14`: a trailing parameter whose colon may be left out.
last_param : Stream → List Str → Params
last_param is ms =
    let (p, is1) = peek is in
    let (c, is2) = get is1 in
    let (q, is3) = peek is2 in
    let (d, is4) = get is3 in
    if peek_is b' ' p
    then with_trailing ms (if peek_is b':' q then gettrailing is4 else gettrailing is3)
    else no_trailing ms is1

-- The loop of `getparams`; the number is `14 - n`. A stream that `getmiddle` fails ends the loop.
params_loop : ℕ → Stream → List Str → Params
params_loop zero is ms = last_param is ms
params_loop (suc left) is ms =
    let (p, is1) = peek is in
    let (c, is2) = get is1 in
    let (q, is3) = peek is2 in
    let (d, is4) = get is3 in
    let (middle, is5) = getmiddle is3 in
    let next = params_loop left is5 (ms ++ middle ∷ []) in
    if is.fail
    then no_trailing ms is
    else if not (peek_is b' ' p)
    then no_trailing ms is1
    else if peek_is b':' q
    then with_trailing ms (gettrailing is4)
    else if is5.fail
    then no_trailing ms is5
    else next

unfoldable pub getparams : Stream → Params
unfolding params_loop last_param
getparams is = params_loop 14 is []

-- ===== src/Params/Sound.antt =====
-- Whatever the text, `getparams` returns only words of the grammar, and at most 14 middles.
use skivvy.Base.{
  ℕ, zero, suc, ◌+◌, ◌≤◌, Bool, true, false, ◌≡◌, ◌∙◌, sym, refl, List, [], ◌∷◌, ◌++◌, arith, Str,
  has_char, length, length-append, All, All-append, inl, inr, Bool-cases,
}
use mathlib.Core.Bool.{true≢false}
use skivvy.Stream.{Stream, good, peek, get}
use skivvy.Params.{
  Params, nospcrlfcl, nospcrlf, nocrlf, trailing_loop, gettrailing, middle_loop, getmiddle,
  last_param, params_loop, getparams,
}
use skivvy.Params.Grammar.{IsTrailing, IsMiddle}

-- A stream by its fields, so that the proofs can split on them.
abbrev stream : Str → Bool → Bool → Stream
stream b e f = record { buf = b; eof = e; fail = f }

trailing_loop-IsTrailing :
    (fuel : ℕ) (b : Str) (e f : Bool) (acc : Str)
    → IsTrailing acc
    → IsTrailing (trailing_loop fuel (stream b e f) acc).0
unfolding trailing_loop peek get
trailing_loop-IsTrailing zero b e f acc h = h
trailing_loop-IsTrailing (suc fuel) b e true acc h = h
trailing_loop-IsTrailing (suc fuel) b true false acc h = h
trailing_loop-IsTrailing (suc fuel) [] false false acc h = h
trailing_loop-IsTrailing (suc fuel) (c ∷ b) false false acc h =
    elim (Bool-cases (has_char nocrlf c)) [
      | inl stop ↦ rw (stop, trailing_loop) h
      | inr more ↦
          rw (more, trailing_loop)
            (trailing_loop-IsTrailing fuel b false false (acc ++ c ∷ [])
              (All-append _ acc (c ∷ []) h (more, tt)))
    ]

pub gettrailing-IsTrailing : (is : Stream) → IsTrailing (gettrailing is).0
unfolding gettrailing
gettrailing-IsTrailing is =
    trailing_loop-IsTrailing (suc (length is.buf)) is.buf is.eof is.fail [] tt

IsMiddle-append :
    (m : Str) (c : ℕ) → IsMiddle m → has_char nospcrlf c ≡ false → IsMiddle (m ++ c ∷ [])
IsMiddle-append [] c k e = absurd k
IsMiddle-append (d ∷ m) c (k, ks) e = (k, All-append _ m (c ∷ []) ks (e, tt))

middle_loop-IsMiddle :
    (fuel : ℕ) (b : Str) (e f : Bool) (acc : Str)
    → IsMiddle acc
    → IsMiddle (middle_loop fuel (stream b e f) acc).0
unfolding middle_loop peek get
middle_loop-IsMiddle zero b e f acc h = h
middle_loop-IsMiddle (suc fuel) b e true acc h = h
middle_loop-IsMiddle (suc fuel) b true false acc h = h
middle_loop-IsMiddle (suc fuel) [] false false acc h = h
middle_loop-IsMiddle (suc fuel) (c ∷ b) false false acc h =
    elim (Bool-cases (has_char nospcrlf c)) [
      | inl stop ↦ rw (stop, middle_loop) h
      | inr more ↦
          rw (more, middle_loop)
            (middle_loop-IsMiddle fuel b false false (acc ++ c ∷ []) (IsMiddle-append acc c h more))
    ]

-- Once a stream has failed, the loop leaves it.
middle_loop-fail :
    (fuel : ℕ) (b acc : Str) (e : Bool) → (middle_loop fuel (stream b e true) acc).1.fail ≡ true
unfolding middle_loop
middle_loop-fail zero b acc e = refl
middle_loop-fail (suc fuel) b acc e = refl

getmiddle_cases :
    (b : Str) (e f : Bool)
    → (getmiddle (stream b e f)).1.fail ≡ false
    → IsMiddle (getmiddle (stream b e f)).0
unfolding getmiddle peek get
getmiddle_cases b true true h =
    absurd (true≢false (sym (middle_loop-fail (suc (length b)) b (255 ∷ []) true) ∙ h))
getmiddle_cases b false true h =
    absurd (true≢false (sym (middle_loop-fail (suc (length b)) b (255 ∷ []) false) ∙ h))
getmiddle_cases b true false h =
    absurd (true≢false (sym (middle_loop-fail (suc (length b)) b (255 ∷ []) true) ∙ h))
getmiddle_cases [] false false h =
    absurd (true≢false (sym (middle_loop-fail 1 [] (255 ∷ []) true) ∙ h))
getmiddle_cases (c ∷ b) false false h = elim (Bool-cases (has_char nospcrlfcl c)) [
  | inl stop ↦ absurd (true≢false (rw stop at h))
  | inr more ↦ rw more (middle_loop-IsMiddle (suc (length b)) b false false (c ∷ []) (more, tt))
]

-- A middle that `getmiddle` reads without failing is one.
pub getmiddle-IsMiddle : (is : Stream) → (getmiddle is).1.fail ≡ false → IsMiddle (getmiddle is).0
getmiddle-IsMiddle is h = getmiddle_cases is.buf is.eof is.fail h

All-snoc : (ms : List Str) (m : Str) → All IsMiddle ms → IsMiddle m → All IsMiddle (ms ++ m ∷ [])
All-snoc ms m h k = All-append IsMiddle ms (m ∷ []) h (k, tt)

abbrev pub IsSound : ℕ → Params → Type 0
IsSound n p = (length p.middles ≤ n) × All IsMiddle p.middles × IsTrailing p.trailing

last_param-IsSound :
    (is : Stream) (ms : List Str) → All IsMiddle ms → IsSound (length ms) (last_param is ms)
unfolding last_param
last_param-IsSound is ms h = ground (
  arith,
  gettrailing-IsTrailing (get (peek (get (peek is).1).1).1).1,
  gettrailing-IsTrailing (peek (get (peek is).1).1).1,
)

params_loop-IsSound :
    (left : ℕ) (is : Stream) (ms : List Str)
    → All IsMiddle ms
    → IsSound (length ms + left) (params_loop left is ms)
unfolding params_loop
params_loop-IsSound zero is ms h = ground (arith, last_param-IsSound is ms h)
params_loop-IsSound (suc left) is ms h =
    let is3 = (peek (get (peek is).1).1).1 in
    let (m, is5) = getmiddle is3 in
    ground (
      arith,
      gettrailing-IsTrailing (get is3).1,
      params_loop-IsSound left is5 (ms ++ m ∷ []),
      All-snoc ms m h,
      getmiddle-IsMiddle is3,
      length-append ms (m ∷ []),
    )

-- Of any text `getparams` makes at most 14 middles, each a middle of the grammar, and a trailing
-- parameter with no NUL, CR or LF.
pub getparams-IsSound :
    (s : Str)
    → (length (getparams (good s)).middles ≤ 14)
      × All IsMiddle (getparams (good s)).middles
      × IsTrailing (getparams (good s)).trailing
unfolding getparams
getparams-IsSound s = params_loop-IsSound 14 (good s) [] tt

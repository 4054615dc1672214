-- ===== src/Params/Grammar.antt =====
-- The grammar that the comments of src/include/skivvy/message.h give for the parameters, and what
-- `gettrailing` and `getmiddle` do on a stream that begins with a word of it.
use skivvy.Base.{
  ℕ, zero, suc, ◌<◌, true, false, ◌≡◌, [], ◌∷◌, ◌++◌, arith, Str, append-nil, append_assoc,
  has_char, length, length-append, All,
}
use skivvy.Stream.{Stream, good, at_end, peek, get}
use skivvy.Params.{nospcrlfcl, nospcrlf, nocrlf, trailing_loop, gettrailing, middle_loop, getmiddle}

-- trailing: *(":" / " " / nospcrlfcl)
abbrev pub IsTrailing : Str → Type 0
IsTrailing = All (λ c. has_char nocrlf c ≡ false)

-- *(":" / nospcrlfcl)
abbrev pub IsMiddleRest : Str → Type 0
IsMiddleRest = All (λ c. has_char nospcrlf c ≡ false)

-- middle: nospcrlfcl *(":" / nospcrlfcl)
abbrev pub IsMiddle : Str → Type 0
IsMiddle [] = ⊥
IsMiddle (c ∷ m) = (has_char nospcrlfcl c ≡ false) × IsMiddleRest m

trailing_loop_all :
    (fuel : ℕ) (t acc : Str)
    → length t < fuel
    → IsTrailing t
    → trailing_loop fuel (good t) acc ≡ (acc ++ t, at_end true)
unfolding trailing_loop peek get
trailing_loop_all zero t acc h k = absurd (omega arith)
trailing_loop_all (suc fuel) [] acc h k = ground (arith, append-nil acc)
trailing_loop_all (suc fuel) (c ∷ t) acc h (k, ks) =
    rw (k, trailing_loop)
      (ground (
        arith,
        trailing_loop_all fuel t (acc ++ c ∷ []) (omega arith) ks,
        append_assoc acc (c ∷ []) t,
      ))

-- The stream comes back good, for `gettrailing` clears it.
pub gettrailing_all : (t : Str) → IsTrailing t → gettrailing (good t) ≡ (t, good [])
unfolding gettrailing
gettrailing_all t k = rw (trailing_loop_all (suc (length t)) t [] (omega arith) k)

-- The text behind a middle: nothing, or a byte that ends it.
abbrev pub Ends : Str → Type 0
Ends [] = Unit
Ends (c ∷ r) = has_char nospcrlf c ≡ true

abbrev pub rest_of : Str → Stream
rest_of [] = at_end false
rest_of (c ∷ r) = good (c ∷ r)

middle_loop_all :
    (fuel : ℕ) (m rest acc : Str)
    → length m < fuel
    → IsMiddleRest m
    → Ends rest
    → middle_loop fuel (good (m ++ rest)) acc ≡ (acc ++ m, rest_of rest)
unfolding middle_loop peek get
middle_loop_all zero m rest acc h k e = absurd (omega arith)
middle_loop_all (suc fuel) [] [] acc h k e = ground (arith, append-nil acc)
middle_loop_all (suc fuel) [] (d ∷ rest) acc h k e =
    rw (e, middle_loop) (ground (arith, append-nil acc))
middle_loop_all (suc fuel) (c ∷ m) rest acc h (k, ks) e =
    rw (k, middle_loop)
      (ground (
        arith,
        middle_loop_all fuel m rest (acc ++ c ∷ []) (omega arith) ks e,
        append_assoc acc (c ∷ []) m,
      ))

pub getmiddle_all :
    (m rest : Str) → IsMiddle m → Ends rest → getmiddle (good (m ++ rest)) ≡ (m, rest_of rest)
unfolding getmiddle peek get
getmiddle_all [] rest k e = absurd k
getmiddle_all (c ∷ m) rest (k, ks) e = rw k (
    middle_loop_all (suc (length (m ++ rest))) m rest (c ∷ []) (omega (arith, length-append m rest))
      ks e)

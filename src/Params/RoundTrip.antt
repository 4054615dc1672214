-- ===== src/Params/RoundTrip.antt =====
-- `getparams` reads back what the grammar writes.
use skivvy.Base.{
  ℕ, zero, suc, ◌≤◌, true, false, ◌≡◌, ◌≢◌, refl, List, [], ◌∷◌, ◌++◌, arith, Str, append-nil,
  append_assoc, length, All,
}
use skivvy.Stream.{good, at_end, peek, get}
use skivvy.Params.{last_param, params_loop, getparams}
use skivvy.Params.Grammar.{IsTrailing, IsMiddle, Ends, rest_of, gettrailing_all, getmiddle_all}

-- *( SPACE middle )
abbrev pub spell : List Str → Str
spell [] = []
spell (m ∷ ms) = b' ' ∷ (m ++ spell ms)

spell-Ends : (ms : List Str) (t : Str) → Ends (spell ms ++ b' ' ∷ t)
spell-Ends [] t = refl
spell-Ends (m ∷ ms) t = refl

spell-Ends_last : (ms : List Str) → Ends (spell ms)
spell-Ends_last [] = tt
spell-Ends_last (m ∷ ms) = refl

fail-rest_of : (r : Str) → (rest_of r).fail ≡ false
fail-rest_of [] = refl
fail-rest_of (c ∷ r) = refl

-- One round of the loop, at a space and a middle.
params_loop_middle :
    (left : ℕ) (m rest : Str) (acc : List Str)
    → IsMiddle m
    → Ends rest
    → params_loop (suc left) (good (b' ' ∷ (m ++ rest))) acc
      ≡ params_loop left (rest_of rest) (acc ++ m ∷ [])
unfolding params_loop peek get
params_loop_middle left [] rest acc k e = absurd k
params_loop_middle left (c ∷ m) rest acc k e =
    ground (arith, getmiddle_all (c ∷ m) rest k e, fail-rest_of rest)

rest_of-append :
    (ms : List Str) (t : Str) → rest_of (spell ms ++ b' ' ∷ t) ≡ good (spell ms ++ b' ' ∷ t)
rest_of-append [] t = refl
rest_of-append (m ∷ ms) t = refl

params_loop_trailing :
    (left : ℕ) (ms acc : List Str) (t : Str)
    → length ms ≤ left
    → All IsMiddle ms
    → IsTrailing t
    → params_loop left (good (spell ms ++ b' ' ∷ b':' ∷ t)) acc
      ≡ record { middles = acc ++ ms; trailing = t; is = good [] }
params_loop_trailing zero [] acc t h k kt =
    unfold params_loop last_param peek get in ground (arith, append-nil acc, gettrailing_all t kt)
params_loop_trailing zero (m ∷ ms) acc t h k kt = absurd (omega arith)
params_loop_trailing (suc left) [] acc t h k kt =
    unfold params_loop peek get in ground (arith, append-nil acc, gettrailing_all t kt)
params_loop_trailing (suc left) (m ∷ ms) acc t h (k, ks) kt = rw (
  append_assoc m (spell ms) (b' ' ∷ b':' ∷ t),
  params_loop_middle left m _ acc k (spell-Ends ms (b':' ∷ t)),
  rest_of-append ms (b':' ∷ t),
  params_loop_trailing left ms (acc ++ m ∷ []) t (omega arith) ks kt,
  append_assoc acc (m ∷ []) ms,
)

params_loop_end :
    (left : ℕ) (acc : List Str)
    → params_loop left (at_end false) acc
      ≡ record { middles = acc; trailing = []; is = at_end true }
unfolding params_loop last_param peek get
params_loop_end zero acc = refl
params_loop_end (suc left) acc = refl

params_loop_middles :
    (left : ℕ) (m : Str) (ms acc : List Str)
    → length (m ∷ ms) ≤ left
    → All IsMiddle (m ∷ ms)
    → params_loop left (good (spell (m ∷ ms))) acc
      ≡ record { middles = acc ++ m ∷ ms; trailing = []; is = at_end true }
params_loop_middles zero m ms acc h k = absurd (omega arith)
params_loop_middles (suc left) m [] acc h (k, ks) =
    rw (params_loop_middle left m [] acc k tt) (params_loop_end left (acc ++ m ∷ []))
params_loop_middles (suc left) m (n ∷ ms) acc h (k, ks) =
    rw (params_loop_middle left m (spell (n ∷ ms)) acc k refl) (
      rw (params_loop_middles left n ms (acc ++ m ∷ []) (omega arith) ks)
        (rw (append_assoc acc (m ∷ []) (n ∷ ms))))

params_loop_colonless :
    (ms acc : List Str) (c : ℕ) (t : Str)
    → All IsMiddle ms
    → IsTrailing (c ∷ t)
    → c ≢ b':'
    → params_loop (length ms) (good (spell ms ++ b' ' ∷ c ∷ t)) acc
      ≡ record { middles = acc ++ ms; trailing = c ∷ t; is = good [] }
params_loop_colonless [] acc c t k kt ne =
    unfold params_loop last_param peek get in
    ground (arith, append-nil acc, gettrailing_all (c ∷ t) kt)
params_loop_colonless (m ∷ ms) acc c t (k, ks) kt ne = rw (
  append_assoc m (spell ms) (b' ' ∷ c ∷ t),
  params_loop_middle (length ms) m _ acc k (spell-Ends ms (c ∷ t)),
  rest_of-append ms (c ∷ t),
  params_loop_colonless ms (acc ++ m ∷ []) c t ks kt ne,
  append_assoc acc (m ∷ []) ms,
)

-- Up to 14 middles and a trailing parameter behind a colon are read back, and the stream is good.
pub getparams_trailing :
    (ms : List Str) (t : Str)
    → length ms ≤ 14
    → All IsMiddle ms
    → IsTrailing t
    → getparams (good (spell ms ++ b' ' ∷ b':' ∷ t))
      ≡ record { middles = ms; trailing = t; is = good [] }
unfolding getparams
getparams_trailing ms t h k kt = params_loop_trailing 14 ms [] t h k kt

-- One to 14 middles alone are read back, and the stream has failed.
pub getparams_middles :
    (m : Str) (ms : List Str)
    → length (m ∷ ms) ≤ 14
    → All IsMiddle (m ∷ ms)
    → getparams (good (spell (m ∷ ms)))
      ≡ record { middles = m ∷ ms; trailing = []; is = at_end true }
unfolding getparams
getparams_middles m ms h k = params_loop_middles 14 m ms [] h k

-- Behind 14 middles the colon of the trailing parameter may be left out.
pub getparams_colonless :
    (ms : List Str) (c : ℕ) (t : Str)
    → length ms ≡ 14
    → All IsMiddle ms
    → IsTrailing (c ∷ t)
    → c ≢ b':'
    → getparams (good (spell ms ++ b' ' ∷ c ∷ t))
      ≡ record { middles = ms; trailing = c ∷ t; is = good [] }
unfolding getparams
getparams_colonless ms c t h k kt ne = rw h at (params_loop_colonless ms [] c t k kt ne)

-- ===== src/Message/Parse.antt =====
-- `message::parse` reads a line of the grammar back, whatever the message held before.
use skivvy.Base.{
  ℕ, ◌≤◌, ◌==◌, has_char, true, false, ◌≡◌, ◌≢◌, refl, ap, List, [], ◌∷◌, ◌++◌, append_assoc, arith,
  Str, is_space, length, All, All-append, Lacks,
}
use skivvy.Stream.{good, at_end, getline, peek, ignore, read_word}
use skivvy.Stream.Laws.{NoSpace, getline_all, read_word_cut, read_word_all}
use skivvy.Hol.{Hol, IsHol, AllSpace}
use skivvy.Hol.Trim.{IsTrimmed, IsTrimmed-cons, IsTrimmed-append, trim_right-append}
use skivvy.Params.{Params, nocrlf, getparams}
use skivvy.Params.Grammar.{IsTrailing, IsMiddleRest, IsMiddle}
use skivvy.Params.RoundTrip.{spell, getparams_trailing}
use skivvy.Message.{Message, parse, get_params, get_trailing}

-- The line that the server sends for a prefix, a command and the text of its parameters.
abbrev pub prefixed : Str → Str → Str → Str
prefixed p command params = b':' ∷ (p ++ b' ' ∷ (command ++ b' ' ∷ params))

-- The line without a prefix.
abbrev pub plain : Str → Str → Str
plain command params = command ++ b' ' ∷ params

==-ne : (a b : ℕ) → a ≢ b → (a == b) ≡ false
==-ne a b h = ground arith

read_word_space :
    (old s : Str) (c : ℕ)
    → is_space c ≡ true
    → read_word old (good (c ∷ s)) ≡ read_word old (good s)
unfolding read_word
read_word_space old s c k = rw k

prefixed-IsTrimmed :
    (p command params : Str) → IsTrimmed params → IsTrimmed (prefixed p command params)
prefixed-IsTrimmed p command params k =
    let c = command ++ b' ' ∷ params in
    IsTrimmed-cons b':' (p ++ b' ' ∷ c) (
      IsTrimmed-append p (b' ' ∷ c) (
        IsTrimmed-cons b' ' c
          (IsTrimmed-append command (b' ' ∷ params) (IsTrimmed-cons b' ' params k))))

plain-IsTrimmed : (command params : Str) → IsTrimmed params → IsTrimmed (plain command params)
plain-IsTrimmed command params k =
    IsTrimmed-append command (b' ' ∷ params) (IsTrimmed-cons b' ' params k)

module _ {h : Hol} (l : IsHol h) (m : Message) (now : ℕ) where
  -- A prefix, a command and parameters are taken apart at the first spaces.
  pub parse-prefixed :
      (p command params w : Str)
      → NoSpace p
      → p ≢ []
      → NoSpace command
      → command ≢ []
      → Lacks 10 params
      → IsTrimmed params
      → AllSpace w
      → parse h m (prefixed p command params ++ w) now ≡ (
        true,
        record {
          line = prefixed p command params;
          when = now;
          prefix = p;
          command = command;
          params = b' ' ∷ params;
        },
      )
  unfolding parse peek ignore
  parse-prefixed p command params w kp np kc nc lf kt kw = rw (
    trim_right-append l (prefixed p command params) w (prefixed-IsTrimmed p command params kt) kw,
    read_word_cut b' ' m.prefix p (command ++ b' ' ∷ params) refl kp np,
    read_word_space m.command (command ++ b' ' ∷ params) b' ' refl,
    read_word_cut b' ' m.command command params refl kc nc,
    l.sgl_getline 10 m.params (good (b' ' ∷ params)),
    getline_all 10 m.params (b' ' ∷ params) (omega arith, lf),
  )

  -- Without a prefix the old one stays, for `parse` does not clear it.
  pub parse-plain :
      (c : ℕ) (command params w : Str)
      → NoSpace (c ∷ command)
      → c ≢ b':'
      → Lacks 10 params
      → IsTrimmed params
      → AllSpace w
      → parse h m (plain (c ∷ command) params ++ w) now ≡ (
        true,
        record {
          line = plain (c ∷ command) params;
          when = now;
          prefix = m.prefix;
          command = c ∷ command;
          params = b' ' ∷ params;
        },
      )
  unfolding parse peek
  parse-plain c command params w kc nc lf kt kw = rw (
    trim_right-append l (plain (c ∷ command) params) w (plain-IsTrimmed (c ∷ command) params kt) kw,
    ==-ne c b':' nc,
    read_word_cut b' ' m.command (c ∷ command) params refl kc (cc),
    l.sgl_getline 10 m.params (good (b' ' ∷ params)),
    getline_all 10 m.params (b' ' ∷ params) (omega arith, lf),
  )

  -- A line that is one word, not begun by a colon, with nothing but spaces behind it is refused,
  -- though the grammar allows a command without parameters: reading the command meets the end of the
  -- trimmed text, and `sgl` fails on a stream that is not good.
  pub parse_bare :
      (c : ℕ) (command w : Str)
      → NoSpace (c ∷ command)
      → c ≢ b':'
      → IsTrimmed (c ∷ command)
      → AllSpace w
      → (parse h m ((c ∷ command) ++ w) now).0 ≡ false
  unfolding parse peek
  parse_bare c command w kc nc kt kw =
      rw
        (
          trim_right-append l (c ∷ command) w kt kw,
          ==-ne c b':' nc,
          read_word_all m.command (c ∷ command) kc (cc),
          l.sgl_getline 10 m.params (at_end false),
        )
        (unfold getline in refl)

abbrev pub crlf : Str
crlf = 13 ∷ 10 ∷ []

crlf-AllSpace : AllSpace crlf
crlf-AllSpace = (refl, (refl, tt))

-- The text behind the command and its space.
body : List Str → Str → Str
body [] t = b':' ∷ t
body (m ∷ ms) t = m ++ (spell ms ++ b' ' ∷ b':' ∷ t)

spell-body : (ms : List Str) (t : Str) → spell ms ++ b' ' ∷ b':' ∷ t ≡ b' ' ∷ body ms t
unfolding body
spell-body [] t = refl
spell-body (m ∷ ms) t = ap (◌∷◌ b' ') (append_assoc m (spell ms) (b' ' ∷ b':' ∷ t))

no_lf : (c : ℕ) → has_char nocrlf c ≡ false → c ≢ 10
no_lf c h = ground arith

IsTrailing-Lacks : (t : Str) → IsTrailing t → Lacks 10 t
IsTrailing-Lacks [] h = tt
IsTrailing-Lacks (c ∷ t) (h, hs) = (no_lf c h, IsTrailing-Lacks t hs)

IsMiddleRest-Lacks : (t : Str) → IsMiddleRest t → Lacks 10 t
IsMiddleRest-Lacks [] h = tt
IsMiddleRest-Lacks (c ∷ t) (h, hs) = (ground arith, IsMiddleRest-Lacks t hs)

IsMiddle-Lacks : (m : Str) → IsMiddle m → Lacks 10 m
IsMiddle-Lacks [] h = absurd h
IsMiddle-Lacks (c ∷ t) (h, hs) = (ground arith, IsMiddleRest-Lacks t hs)

spell-Lacks :
    (ms : List Str) (t : Str)
    → All IsMiddle ms
    → IsTrailing t
    → Lacks 10 (spell ms ++ b' ' ∷ b':' ∷ t)
spell-Lacks [] t k kt = (omega arith, (omega arith, IsTrailing-Lacks t kt))
spell-Lacks (m ∷ ms) t (k, ks) kt = (
  omega arith,
  rw (append_assoc m (spell ms) (b' ' ∷ b':' ∷ t))
      (All-append _ m _ (IsMiddle-Lacks m k) (spell-Lacks ms t ks kt)),
)

body-IsTrimmed : (ms : List Str) (t : Str) → IsTrimmed (b':' ∷ t) → IsTrimmed (body ms t)
unfolding body
body-IsTrimmed [] t k = k
body-IsTrimmed (m ∷ ms) t k =
    IsTrimmed-append m (spell ms ++ b' ' ∷ b':' ∷ t)
      (IsTrimmed-append (spell ms) (b' ' ∷ b':' ∷ t) k)

-- message: [ ":" prefix SPACE ] command *( SPACE middle ) SPACE ":" trailing crlf
abbrev pub wire : Str → Str → List Str → Str → Str
wire p command ms t = b':' ∷ (p ++ b' ' ∷ (command ++ (spell ms ++ b' ' ∷ b':' ∷ t)))

-- What a message shows of a line with that prefix, command and parameters.
pub record Shows (m : Message) (p c : Str) (ms : List Str) (t : Str) : Type 0 where
  pub prefix : m.prefix ≡ p
  pub command : m.command ≡ c
  pub params : get_params m ≡ ms ++ t ∷ []
  pub trailing : get_trailing m ≡ t

read_body :
    (ms : List Str) (t : Str)
    → length ms ≤ 14
    → All IsMiddle ms
    → IsTrailing t
    → getparams (good (b' ' ∷ body ms t)) ≡ record { middles = ms; trailing = t; is = good [] }
read_body ms t le km kt = rw (← spell-body ms t) (getparams_trailing ms t le km kt)

pub parse-wire_spaced :
    {h : Hol} (l : IsHol h) (m : Message) (now : ℕ) (p command : Str) (ms : List Str) (t sp : Str)
    → NoSpace p
    → p ≢ []
    → NoSpace command
    → command ≢ []
    → length ms ≤ 14
    → All IsMiddle ms
    → IsTrailing t
    → IsTrimmed (b':' ∷ t)
    → AllSpace sp
    → ((parse h m (wire p command ms t ++ sp) now).0 ≡ true)
      × Shows (parse h m (wire p command ms t ++ sp) now).1 p command ms t
unfolding get_params get_trailing
parse-wire_spaced l m now p command ms t sp kp np kc nc le km kt kw ks =
    rw
      (
        spell-body ms t,
        parse-prefixed l m now p command (body ms t) sp kp np kc nc
            ((rw (spell-body ms t) at (spell-Lacks ms t km kt)).1) (body-IsTrimmed ms t kw) ks,
      )
      (
        refl,
        record {
          prefix = refl;
          command = refl;
          params = rw (read_body ms t le km kt);
          trailing = ap (λ (r : Params). r.trailing) (read_body ms t le km kt);
        },
      )

-- A line with a prefix and a command that hold no space and are not empty, at most 14 middles and a
-- trailing parameter of the grammar, whose last byte is no space, is accepted by `parse`, and the
-- getters give its prefix, its command and its parameters, whatever the message held before.
pub parse-wire :
    {h : Hol} (l : IsHol h) (m : Message) (now : ℕ) (p command : Str) (ms : List Str) (t : Str)
    → NoSpace p
    → p ≢ []
    → NoSpace command
    → command ≢ []
    → length ms ≤ 14
    → All IsMiddle ms
    → IsTrailing t
    → IsTrimmed (b':' ∷ t)
    → ((parse h m (wire p command ms t ++ crlf) now).0 ≡ true)
      × Shows (parse h m (wire p command ms t ++ crlf) now).1 p command ms t
parse-wire l m now p command ms t kp np kc nc le km kt kw =
    parse-wire_spaced l m now p command ms t crlf kp np kc nc le km kt kw crlf-AllSpace

-- ===== src/Irc/Relay.antt =====
-- What a client parses of the commands that the bot sends.
use skivvy.Base.{
  ℕ, zero, suc, ◌+◌, ◌≤◌, ap, sym, ◌∙◌, take, length, length-append, Bool, true, ◌≡◌, ◌≢◌, refl,
  subst, List, [], ◌∷◌, ◌++◌, append-nil, arith, Str, codes, All-append,
}
use skivvy.Stream.Laws.{NoSpace}
use skivvy.Hol.{Hol, IsHol}
use skivvy.Hol.Trim.{IsTrimmed, IsTrimmed-append}
use skivvy.Params.Grammar.{IsTrailing, IsMiddle}
use skivvy.Message.{Message, parse}
use skivvy.Message.Parse.{crlf, wire, Shows, parse-wire}
use skivvy.Irc.{send, say, ctcp, notice, me}

-- A transport that keeps the last command.
abbrev pub last : Str → Str → Str × Bool
last cmd s = (cmd, true)

-- The line that the server passes on for a command of the client with that prefix: a message has at
-- most 512 bytes, its end counted (RFC 2812, section 2.3), and what is behind them is cut off.
abbrev pub relay : Str → Str × Bool → Str
relay p (cmd, ok) = take 510 (b':' ∷ (p ++ b' ' ∷ cmd)) ++ crlf

-- The line is accepted, and the message shows its parts.
abbrev pub IsHeard : (h : Hol) → Message → ℕ → Str → Str → Str → List Str → Str → Type 0
IsHeard h m now line p command ms t =
    ((parse h m line now).0 ≡ true) × Shows (parse h m line now).1 p command ms t

take-all : (n : ℕ) (s : Str) → length s ≤ n → take n s ≡ s
take-all zero [] h = refl
take-all zero (c ∷ s) h = absurd (omega arith)
take-all (suc n) [] h = refl
take-all (suc n) (c ∷ s) h = ap (◌∷◌ c) (take-all n s (omega (arith, h)))

-- A command with one middle and a trailing parameter, as the bot writes it.
one_middle : Str → Str → Str → Str
one_middle c to t = c ++ b' ' ∷ (to ++ b' ' ∷ b':' ∷ t)

one_middle-wire : (p c to t : Str) → wire p c (to ∷ []) t ≡ b':' ∷ (p ++ b' ' ∷ one_middle c to t)
unfolding one_middle
one_middle-wire p c to t = rw (append-nil to) refl

length-one_middle :
    (p c to t : Str)
    → length (b':' ∷ (p ++ b' ' ∷ one_middle c to t))
      ≡ length p + length c + length to + length t + 5
unfolding one_middle
length-one_middle p c to t = omega (
  arith,
  length-append {0} p (b' ' ∷ (c ++ b' ' ∷ (to ++ b' ' ∷ b':' ∷ t))),
  length-append {0} c (b' ' ∷ (to ++ b' ' ∷ b':' ∷ t)),
  length-append {0} to (b' ' ∷ b':' ∷ t),
)

module _ {h : Hol} (l : IsHol h) (m : Message) (now : ℕ) (p : Str) (kp : NoSpace p)
    (np : p ≢ []) where
  relay-Shows :
      (c to t : Str)
      → NoSpace c
      → c ≢ []
      → IsMiddle to
      → IsTrailing t
      → IsTrimmed (b':' ∷ t)
      → length p + length c + length to + length t + 5 ≤ 510
      → IsHeard h m now (relay p (one_middle c to t, true)) p c (to ∷ []) t
  relay-Shows c to t kc nc kt kx kw short =
      let whole =
        take-all 510 (b':' ∷ (p ++ b' ' ∷ one_middle c to t))
          (omega (arith, short, length-one_middle p c to t)) in
      subst (λ w. IsHeard h m now (w ++ crlf) p c (to ∷ []) t)
        (one_middle-wire p c to t ∙ sym whole)
        (parse-wire l m now p c (to ∷ []) t kp np kc nc (omega arith) (kt, tt) kx kw)

  -- `say` is heard as PRIVMSG and `notice` as NOTICE, each with the receiver and the whole text, if
  -- the prefix that the server adds holds no space and is not empty, the receiver is a middle, the text a
  -- trailing parameter of the grammar that ends in no space, and the line that the server makes has at
  -- most 512 bytes: the server cuts a longer one.
  pub say-notice-Shows :
      (to text : Str)
      → IsMiddle to
      → IsTrailing text
      → IsTrimmed (b':' ∷ text)
      → length p + length to + length text + 12 ≤ 510
      → IsHeard h m now (relay p (say last to text [])) p (codes "PRIVMSG") (to ∷ []) text
        × IsHeard h m now (relay p (notice last to text [])) p (codes "NOTICE") (to ∷ []) text
  unfolding say notice send one_middle
  say-notice-Shows to text kt kx kw short = (
    relay-Shows (codes "PRIVMSG") to text (ground arith) (cc) kt kx kw (omega (arith, short)),
    relay-Shows (codes "NOTICE") to text (ground arith) (cc) kt kx kw (omega (arith, short)),
  )

  -- `ctcp` and `me` are heard as PRIVMSG with the text between two bytes 1, behind `ACTION ` for `me`,
  -- if the prefix holds no space and is not empty, the receiver is a middle, and the text is a
  -- trailing parameter that may end in a space, and if the line is not too long.
  pub ctcp-me-Shows :
      (to text : Str)
      → IsMiddle to
      → IsTrailing text
      → length p + length to + length text + 21 ≤ 510
      → IsHeard h m now
          (relay p (ctcp last to text []))
          p
          (codes "PRIVMSG")
          (to ∷ [])
          (1 ∷ (text ++ 1 ∷ []))
        × IsHeard h m now
            (relay p (me last to text []))
            p
            (codes "PRIVMSG")
            (to ∷ [])
            (1 ∷ (codes "ACTION " ++ (text ++ 1 ∷ [])))
  unfolding ctcp me say send one_middle
  ctcp-me-Shows to text kt kx short =
      let k : IsTrailing (text ++ 1 ∷ []) = All-append _ text (1 ∷ []) kx (refl, tt) in
      (
        relay-Shows (codes "PRIVMSG") to (1 ∷ (text ++ 1 ∷ [])) (ground arith) (cc) kt (refl, k)
            (IsTrimmed-append (b':' ∷ 1 ∷ text) (1 ∷ []) refl)
            (omega (arith, short, length-append {0} text (1 ∷ []))),
        relay-Shows (codes "PRIVMSG") to (1 ∷ (codes "ACTION " ++ (text ++ 1 ∷ []))) (ground arith)
            (cc) kt (refl, (refl, (refl, (refl, (refl, (refl, (refl, (refl, k))))))))
            (IsTrimmed-append (b':' ∷ 1 ∷ codes "ACTION ") (text ++ 1 ∷ [])
              (IsTrimmed-append text (1 ∷ []) refl))
            (omega (arith, short, length-append {0} text (1 ∷ []))),
      )

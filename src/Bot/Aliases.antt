-- ===== src/Bot/Aliases.antt =====
-- The aliases of commands, `execute` of src/ircbot.cpp: what the loop over them finds.
use skivvy.Base.{
  Bool, false, true, ◌≡◌, ◌≢◌, refl, ap, sym, subst, ◌⊎◌, inl, inr, List, [], ◌∷◌, ◌++◌, map, arith,
  Str, str_eq, str_eq_iff, All, Bool-cases, if◌then◌else◌, not,
}
use skivvy.Stream.{good, at_end, read_word}
use skivvy.Stream.Laws.{NoSpace, read_word_cut, read_word_all}
use skivvy.Message.{Message, get_chan}
use skivvy.Bot.{World}
use skivvy.Bot.Access.{Aliased, in_use, alias, unaliased, alias_loop}

-- A line of the property: the channel, the alias and the command that it stands for.
pub record Alias : Type 0 where
  pub chan : Str
  pub from : Str
  pub to : Str

abbrev pub line_of : Alias → Str
line_of a = a.chan ++ b' ' ∷ (a.from ++ b' ' ∷ a.to)

-- Text that is one word.
abbrev pub IsOneWord : Str → Type 0
IsOneWord s = NoSpace s × (s ≢ [])

abbrev pub IsAlias : Alias → Type 0
IsAlias a = IsOneWord a.chan × IsOneWord a.from × IsOneWord a.to

read_word-space : (old s : Str) → read_word old (good (b' ' ∷ s)) ≡ read_word old (good s)
unfolding read_word
read_word-space old s = refl

read_word-end : (old : Str) (f : Bool) → read_word old (at_end f) ≡ (old, at_end true)
unfolding read_word
read_word-end old f = refl

module _ (w : World) (msg : Message) (cmd : Str) where
  -- The alias is one of the channel of the message.
  abbrev pub IsHere : Alias → Type 0
  IsHere a = w.hol.lower a.chan ≡ w.hol.lower (get_chan msg)

  -- The alias is one of another channel, or has to do with other commands.
  abbrev pub IsOther : Alias → Type 0
  IsOther a = (w.hol.lower a.chan ≢ w.hol.lower (get_chan msg)) ⊎ ((a.to ≢ cmd) × (a.from ≢ cmd))

  -- The first alias that has to do with the command.
  abbrev pub IsFirst : Alias → List Alias → Type 0
  IsFirst a as' =
      (before : List Alias) × (after : List Alias) × (as' ≡ before ++ a ∷ after)
      × All IsOther before
      × IsHere a

  -- What the loop finds, of these aliases.
  abbrev pub IsFound : List Alias → Aliased → Type 0
  IsFound as' in_use = (a : Alias) × IsFirst a as' × (a.to ≡ cmd)
  IsFound as' (alias to) =
      (a : Alias) × IsFirst a as' × (a.to ≢ cmd) × (a.from ≡ cmd) × (to ≡ a.to) × (to ≢ [])
  IsFound as' unaliased = All IsOther as'

  skip_other :
      (a : Alias) (as' : List Alias) (r : Aliased) → IsOther a → IsFound as' r → IsFound (a ∷ as') r
  skip_other a as' in_use o (b, (before, after, e, h, k), t) =
      (b, (a ∷ before, after, ap (◌∷◌ a) e, (o, h), k), t)
  skip_other a as' (alias to) o (b, (before, after, e, h, k), n, f, t, z) =
      (b, (a ∷ before, after, ap (◌∷◌ a) e, (o, h), k), n, f, t, z)
  skip_other a as' unaliased o h = (o, h)

  -- The three words of a line.
  loop_round :
      (a : Alias) (as' : List Str) (chan from to : Str)
      → IsAlias a
      → alias_loop w msg cmd (chan, from, to) (line_of a ∷ as') ≡ (
          if not (str_eq (w.hol.lower a.chan) (w.hol.lower (get_chan msg)))
          then alias_loop w msg cmd (w.hol.lower a.chan, a.from, a.to) as'
          else if str_eq a.to cmd
          then in_use
          else if str_eq a.from cmd
          then alias a.to
          else alias_loop w msg cmd (w.hol.lower a.chan, a.from, a.to) as')
  unfolding alias_loop
  loop_round a as' chan from to ((c, nc), (f, nf), (t, nt)) =
      rw
        (
          read_word_cut b' ' chan a.chan (a.from ++ b' ' ∷ a.to) refl c nc,
          read_word-space from (a.from ++ b' ' ∷ a.to),
          read_word_cut b' ' from a.from a.to refl f nf,
          read_word-space to a.to,
          read_word_all to a.to t nt,
        )
        refl

  pub alias_loop-IsFound :
      (as' : List Alias) (chan from to : Str)
      → All IsAlias as'
      → IsFound as' (alias_loop w msg cmd (chan, from, to) (map line_of as'))
  alias_loop-IsFound [] chan from to h = unfold alias_loop in tt
  alias_loop-IsFound (a ∷ as') chan from to (h, hs) =
      let rest = alias_loop-IsFound as' (w.hol.lower a.chan) a.from a.to hs in
      subst (IsFound (a ∷ as')) (sym (loop_round a (map line_of as') chan from to h))
        (elim (Bool-cases (str_eq (w.hol.lower a.chan) (w.hol.lower (get_chan msg)))) [
          | inr n ↦ rw n (
              skip_other a as' _
                (inl (ground (arith, str_eq_iff (w.hol.lower a.chan) (w.hol.lower (get_chan msg)))))
                rest)
          | inl e ↦
              let here : IsHere a =
                (str_eq_iff (w.hol.lower a.chan) (w.hol.lower (get_chan msg))).0 e in
              let first : IsFirst a (a ∷ as') = ([], as', refl, tt, here) in
              elim (Bool-cases (str_eq a.to cmd)) [
                | inl t ↦ rw (e, t) (a, first, (str_eq_iff a.to cmd).0 t)
                | inr t ↦
                    let other : a.to ≢ cmd = ground (arith, str_eq_iff a.to cmd) in
                    elim (Bool-cases (str_eq a.from cmd)) [
                      | inl f ↦
                          rw (e, t, f) (a, first, other, (str_eq_iff a.from cmd).0 f, refl, h.2.1)
                      | inr f ↦
                          rw (e, t, f)
                            (skip_other a as' _ (inr (other, ground (arith, str_eq_iff a.from cmd)))
                              rest)
                    ]
              ]
        ])

  -- A line of one word is no alias.
  pub alias_loop-word :
      (s : Str) → IsOneWord s → alias_loop w msg cmd ([], [], []) (s ∷ []) ≡ unaliased
  unfolding alias_loop
  alias_loop-word s (n, k) =
      rw (read_word_all [] s n k, read_word-end [] false, read_word-end [] true) refl

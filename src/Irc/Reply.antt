-- ===== src/Irc/Reply.antt =====
-- Where a reply goes.
use skivvy.Base.{
  Bool, true, false, ◌≡◌, refl, sym, ap, ◌∙◌, inl, inr, some, [], ◌∷◌, ◌++◌, Str, find_char,
  find_char-append, take-append, is_empty, if◌then◌else◌, length, take, Bool-cases,
}
use skivvy.Message.{
  Message, is_nick, get_to, get_nick, get_nickname, from_channel, reply_to, starts_with_char,
  allow_nick,
}
use skivvy.Message.Prefix.{full_prefix, is_nick-Lacks}
use skivvy.Irc.{sender, say, notice, reply, reply_notice, reply_pm, reply_pm_notice}

is_empty-full_prefix : (nick user host : Str) → is_empty (full_prefix nick user host) ≡ false
is_empty-full_prefix [] user host = refl
is_empty-full_prefix (c ∷ nick) user host = refl

from_channel-get_to : (m : Message) → from_channel m ≡ starts_with_char (b'#' ∷ []) (get_to m)
unfolding from_channel get_to
from_channel-get_to m = refl

-- The choice that the replies make is that of `reply_to`.
address {ℓ} :
    {X : Type ℓ} (f : Str → X) (m : Message) (from : Str)
    → from ≡ get_nickname m
    → (if starts_with_char (b'#' ∷ []) (get_to m) then f (get_to m) else f from) ≡ f (reply_to m)
address f m from h = elim (Bool-cases (starts_with_char (b'#' ∷ []) (get_to m))) [
  | inl e ↦ rw e (ap f (sym (unfold reply_to in rw (from_channel-get_to m, e) refl)))
  | inr e ↦ rw e (ap f (h ∙ sym (unfold reply_to in rw (from_channel-get_to m, e) refl)))
]

module _ (nick user host : Str) (kn : is_nick nick ≡ true) (m : Message) where
  from_user : Message
  from_user = record m { prefix = full_prefix nick user host }

  found : find_char b'!' (full_prefix nick user host) ≡ some (length nick)
  found = find_char-append b'!' nick (user ++ b'@' ∷ host) (is_nick-Lacks b'!' nick refl kn)

  cut : take (length nick) (full_prefix nick user host) ≡ nick
  cut = take-append nick (b'!' ∷ (user ++ b'@' ∷ host))

  nickname : get_nickname from_user ≡ nick
  unfolding get_nickname allow_nick from_user
  nickname = rw (found, get_nickname) (rw (cut, kn) refl)

  from_nick : (if is_empty from_user.prefix then [] else sender from_user) ≡ get_nickname from_user
  unfolding sender from_user
  from_nick = rw (is_empty-full_prefix nick user host) (rw (found, sender) (cut ∙ sym nickname))

module _ {ℓ} {S : Type ℓ} (tr : Str → S → S × Bool) (nick user host : Str)
    (kn : is_nick nick ≡ true) where
  -- To a message whose prefix is `nick!user@host` with an allowed nick, `reply` says and
  -- `reply_notice` notices to what `reply_to` returns, the channel or the nick; `reply_pm` and
  -- `reply_pm_notice` answer the nick, whatever the transport.
  pub reply_lem :
      (m : Message) (text : Str) (s : S)
      → let m' = record m { prefix = full_prefix nick user host } in
        (reply tr m' text s ≡ say tr (reply_to m') text s)
        × (reply_notice tr m' text s ≡ notice tr (reply_to m') text s)
        × (reply_pm tr m' text s ≡ say tr nick text s)
        × (reply_pm_notice tr m' text s ≡ notice tr nick text s)
  unfolding reply reply_notice reply_pm reply_pm_notice from_user get_nick
  reply_lem m text s =
      let m' = from_user nick user host kn m in
      let from = from_nick nick user host kn m in
      (
        address (λ to. say tr to text s) m' _ from,
        address (λ to. notice tr to text s) m' _ from,
        ap (λ to. say tr to text s) (nickname nick user host kn m),
        ap (λ to. notice tr to text s) (nickname nick user host kn m),
      )

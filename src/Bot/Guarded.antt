-- ===== src/Bot/Guarded.antt =====
-- The built-in commands that want a password: theorems on `init` of src/ircbot.cpp.
use skivvy.Base.{
  ◌≢◌, ◌++◌, ◌==◌, ◌||◌, ◌∙◌, arith, str_eq_iff, ℕ, true, false, ◌≡◌, refl, ◌⊎◌, inl, inr, some,
  List, [], ◌∷◌, Str, codes,
}
use skivvy.Stream.{Stream, good, skip_space}
use skivvy.Stream.Laws.{NoSpace}
use skivvy.Store.{StrVecMap, at, contains}
use skivvy.Oastats.Words.{getstring_plain, word_to}
use skivvy.Message.{Message, get_user_params}
use skivvy.Bot.{World, Bot, fc_reply, fc_send, get_vec, get_prop, have}
use skivvy.Bot.Text.{getstring, until_term}
use skivvy.Bot.Builtins.{
  pass_ok, bot_die, bot_join, bot_part, bot_reconfigure, bot_restart, bot_pset,
}

-- The bot has replied to the message at most.
abbrev pub OnlyReplies : Message → Bot → Bot → Type 0
OnlyReplies msg s s' = (s' ≡ s) ⊎ ((text : Str) × (s' ≡ fc_reply msg text s))

-- A word that is typed: it is not empty, has no space and starts with no quote.
abbrev pub IsWord : Str → Type 0
IsWord [] = ⊥
IsWord (c ∷ r) = NoSpace (c ∷ r) × ((c == 34 || c == 39) ≡ false)

-- What stands behind a word: nothing, or a space and any text.
abbrev pub IsBehind : Str → Type 0
IsBehind [] = Unit
IsBehind (c ∷ rest) = c ≡ b' '

until_term-word :
    (r behind : Str) → NoSpace r → IsBehind behind → (until_term b' ' (r ++ behind)).0 ≡ r
unfolding until_term
until_term-word [] [] h k = refl
until_term-word [] (c ∷ rest) h k = ground arith
until_term-word (c ∷ r) behind (h, hs) k = ground (arith, until_term-word r behind hs k)

word_to-word :
    (c : ℕ) (r behind : Str)
    → NoSpace (c ∷ r)
    → IsBehind behind
    → (is : Stream) × (word_to [] b' ' ((c ∷ r) ++ behind) ≡ (c ∷ r, is)) × (is.fail ≡ false)
unfolding word_to
word_to-word c r behind h k = (
  good (until_term b' ' ((c ∷ r) ++ behind)).1,
  rw (until_term-word (c ∷ r) behind h k) refl,
  refl,
)

getstring-word :
    (typed behind : Str)
    → IsWord typed
    → IsBehind behind
    → (is : Stream) × (getstring [] (good (typed ++ behind)) ≡ (typed, is)) × (is.fail ≡ false)
getstring-word [] behind h k = absurd h
getstring-word (c ∷ r) behind ((n, ns), q) k =
    let (is, e, f) = word_to-word c r behind (n, ns) k in
    let skipped : skip_space (c ∷ (r ++ behind)) ≡ c ∷ (r ++ behind) = rw n refl in
    (is, getstring_plain [] (c ∷ (r ++ behind)) c (r ++ behind) skipped q ∙ e, f)

contains-at :
    (k v : Str) (vs : List Str) (m : StrVecMap) → at false k m ≡ v ∷ vs → contains false k m ≡ true
unfolding at contains
contains-at k v vs [] e = cc
contains-at k v vs ((j, us) ∷ m) e = ground (arith, contains-at k v vs m)

pass_ok-wrong :
    (typed stored : Str) (more : List Str) (s : Bot)
    → get_vec (codes "password") s ≡ stored ∷ more
    → stored ≢ typed
    → pass_ok typed s ≡ false
unfolding pass_ok have get_prop get_vec
pass_ok-wrong typed stored more s e n =
    rw (contains-at (codes "password") stored more s.props e, e)
      (ground (arith, str_eq_iff stored typed))

-- Where the bot has a password, `!die`, `!restart`, `!pset` and `!reconfigure` whose first word is another
-- one, whatever follows it, do nothing but reply that it is wrong: the rest of the bot's state, what it
-- does and whether it goes on are those from before. The word is not empty, holds no space and starts with
-- no quote; the password is the first value of the property `password`.
pub wrong_password-OnlyReplies :
    (w : World) (cmd : Str) (depth : ℕ) (msg : Message) (s : Bot) (typed behind stored : Str)
    (more : List Str)
    → get_user_params w.hol msg ≡ typed ++ behind
    → IsWord typed
    → IsBehind behind
    → get_vec (codes "password") s ≡ stored ∷ more
    → stored ≢ typed
    → (bot_die w cmd msg s ≡ fc_reply msg (codes "Wrong password") s)
      × (bot_restart w msg s ≡ fc_reply msg (codes "Wrong password") s)
      × (bot_pset w msg s ≡ fc_reply msg (codes "Incorrect password.") s)
      × (bot_reconfigure w depth msg s ≡ some (fc_reply msg (codes "Wrong password") s))
unfolding bot_die bot_restart bot_pset bot_reconfigure
wrong_password-OnlyReplies w cmd depth msg s typed behind stored more p h k e n =
    let (is, read, f) = getstring-word typed behind h k in
    let wrong = pass_ok-wrong typed stored more s e n in
    (
      rw (p, read, f, wrong) refl,
      rw (p, read, f, wrong) refl,
      rw (p, read, f, wrong) refl,
      rw (p, read, f, wrong) refl,
    )

-- `!join` and `!part` with a wrong password, or with another number of words than two, only reply.
wrong_channel_password-OnlyReplies :
    (w : World) (msg : Message) (s : Bot)
    → ((chan pass : Str)
        → w.split_words (get_user_params w.hol msg) ≡ chan ∷ pass ∷ []
        → pass_ok pass s ≡ false)
    → OnlyReplies msg s (bot_join w msg s) × OnlyReplies msg s (bot_part w msg s)
unfolding bot_join bot_part
wrong_channel_password-OnlyReplies w msg s h =
    by_words (w.split_words (get_user_params w.hol msg)) refl
  where
    by_words :
        (ws : List Str)
        → w.split_words (get_user_params w.hol msg) ≡ ws
        → OnlyReplies msg s (bot_join w msg s) × OnlyReplies msg s (bot_part w msg s)
    by_words [] e = (
      inr (codes "Usage: !join #channel <password>", rw (e, bot_join) refl),
      inl (rw (e, bot_part) refl),
    )
    by_words (chan ∷ []) e = (
      inr (codes "Usage: !join #channel <password>", rw (e, bot_join) refl),
      inl (rw (e, bot_part) refl),
    )
    by_words (chan ∷ pass ∷ []) e = (
      inr (codes "Incorrect password.", rw (e, bot_join) (rw (h chan pass e) refl)),
      inr (codes "Incorrect password.", rw (e, bot_part) (rw (h chan pass e) refl)),
    )
    by_words (chan ∷ pass ∷ u ∷ us) e = (
      inr (codes "Usage: !join #channel <password>", rw (e, bot_join) refl),
      inl (rw (e, bot_part) refl),
    )

-- `!restart` with the right password restarts the bot, and the bot replies that it was wrong.
pub bot_restart-right :
    (w : World) (msg : Message) (s : Bot)
    → (getstring [] (good (get_user_params w.hol msg))).1.fail ≡ false
    → pass_ok (getstring [] (good (get_user_params w.hol msg))).0 s ≡ true
    → ((bot_restart w msg s).done ≡ true)
      × ((bot_restart w msg s).restart ≡ true)
      × ((bot_restart w msg s).fc ≡ (fc_reply msg (codes "Wrong password") s).fc)
unfolding bot_restart fc_reply fc_send
bot_restart-right w msg s f h = (rw (f, h) refl, rw (f, h) refl, rw (f, h) refl)

-- ===== src/Bot/SignOn.antt =====
-- Signing on with one nick after another, the handler of ERR_NICKNAMEINUSE in src/ircbot.cpp: theorems.
use skivvy.Base.{
  ℕ, zero, suc, true, false, ◌≡◌, refl, sym, ◌∙◌, none, some, List, [], ◌∷◌, ◌++◌, append_assoc,
  append-nil, Str, codes, length, get_elem?, drop,
}
use skivvy.Irc
use skivvy.Bot.{World, Bot, Effect, sent, irc}
use skivvy.Bot.Handlers.{nickname_in_use}

-- `n` answers that the nick is in use, one behind another.
unfoldable pub refused_nicks : World → ℕ → Bot → Bot
refused_nicks w zero s = s
refused_nicks w (suc n) s = refused_nicks w n (nickname_in_use w s)

-- What the bot sends to sign on with each of these nicks.
abbrev pub sign_ons : Bot → List Str → List Effect
sign_ons s [] = []
sign_ons s (n ∷ ns) =
    sent (codes "NICK " ++ n)
    ∷ sent (codes "USER " ++ s.info_user ++ b' ' ∷ s.info_mode ++ codes " * :" ++ s.info_real)
    ∷ sign_ons s ns

get_elem?-drop {ℓ} :
    {A : Type ℓ} (l : List A) (n : ℕ) {x : A} {xs : List A}
    → drop n l ≡ x ∷ xs
    → get_elem? l n ≡ some x
get_elem?-drop [] zero h = cc
get_elem?-drop [] (suc n) h = cc
get_elem?-drop (y ∷ l) zero h = cc
get_elem?-drop (y ∷ l) (suc n) h = get_elem?-drop l n h

drop-suc {ℓ} :
    {A : Type ℓ} (l : List A) (n : ℕ) {x : A} {xs : List A}
    → drop n l ≡ x ∷ xs
    → drop (suc n) l ≡ xs
drop-suc [] zero h = cc
drop-suc [] (suc n) h = cc
drop-suc (y ∷ l) zero h = cc
drop-suc (y ∷ l) (suc n) h = drop-suc l n h

get_elem?-none {ℓ} : {A : Type ℓ} (l : List A) (n : ℕ) → drop n l ≡ [] → get_elem? l n ≡ none
get_elem?-none [] n h = refl
get_elem?-none (y ∷ l) zero h = cc
get_elem?-none (y ∷ l) (suc n) h = get_elem?-none l n h

abbrev pub signed_on : Bot → Str → Bot
signed_on s n = record s {
  nick_number = suc s.nick_number;
  out =
      (s.out ++ sent (codes "NICK " ++ n) ∷ [])
      ++ sent (codes "USER " ++ s.info_user ++ b' ' ∷ s.info_mode ++ codes " * :" ++ s.info_real)
        ∷ [];
}

nickname_in_use-some :
    (w : World) (s : Bot) (n : Str)
    → get_elem? s.info_nicks s.nick_number ≡ some n
    → nickname_in_use w s ≡ signed_on s n
unfolding nickname_in_use Irc.nick Irc.user Irc.send irc
nickname_in_use-some w s n h = rw (h, nickname_in_use) refl

-- A server that takes none of the nicks that are left: the bot signs on with each of them, in
-- order, and then, at the next answer, it is done and sends nothing more.
pub refused_nicks-sign_ons :
    (w : World) (ns : List Str) (s : Bot)
    → drop s.nick_number s.info_nicks ≡ ns
    → s.done ≡ false
    → ((refused_nicks w (length ns) s).out ≡ s.out ++ sign_ons s ns)
      × ((refused_nicks w (length ns) s).done ≡ false)
      × ((refused_nicks w (suc (length ns)) s).out ≡ s.out ++ sign_ons s ns)
      × ((refused_nicks w (suc (length ns)) s).done ≡ true)
unfolding refused_nicks nickname_in_use
refused_nicks-sign_ons w [] s h d =
    let none_left = get_elem?-none s.info_nicks s.nick_number h in
    (
      sym (append-nil s.out),
      d,
      rw (none_left, nickname_in_use) (sym (append-nil s.out)),
      rw (none_left, nickname_in_use) refl,
    )
refused_nicks-sign_ons w (n ∷ ns) s h d =
    let (a, b, c, e) =
      refused_nicks-sign_ons w ns (signed_on s n) (drop-suc s.info_nicks s.nick_number h) d in
    rw (nickname_in_use-some w s n (get_elem?-drop s.info_nicks s.nick_number h), refused_nicks)
      (a ∙ shift, b, c ∙ shift, e)
  where
    shift :
        ((s.out ++ sent (codes "NICK " ++ n) ∷ [])
            ++ sent
                (codes "USER " ++ s.info_user ++ b' ' ∷ s.info_mode ++ codes " * :" ++ s.info_real)
              ∷ [])
          ++ sign_ons s ns
        ≡ s.out ++ sign_ons s (n ∷ ns)
    shift = simp (append_assoc)

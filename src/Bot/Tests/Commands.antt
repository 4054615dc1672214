-- ===== src/Bot/Tests/Commands.antt =====
-- The theorems on the commands of users, at concrete messages.
use skivvy.Base.{false, ◌≡◌, refl, some, [], ◌∷◌, ◌++◌, map, arith, codes, if◌then◌else◌}
use skivvy.Hol.Model.{hol}
use skivvy.Stream.{good, peek, get, getline}
use skivvy.Params.{getparams, gettrailing, getmiddle}
use skivvy.Message.{get_user_params, get_trailing}
use skivvy.Store.{at, same_key, ci_cmp, ci_fix, lex}
use skivvy.Bot.{Bot, get_vec, fc_reply}
use skivvy.Bot.Access.{execute, execute_unbanned}
use skivvy.Bot.Builtins.{bot_die, bot_restart, bot_pset, bot_reconfigure, pset_key}
use skivvy.Bot.Aliases.{Alias, line_of}
use skivvy.Bot.Allowed.{execute_unbanned-eq-execute}
use skivvy.Bot.Guarded.{wrong_password-OnlyReplies}
use skivvy.Bot.Strings.{IsKey, quoted, pset_key-quoted}
use skivvy.Bot.Tests.{plugin, world, bot, locked_bot, says}

abbrev roll_alias : Alias
roll_alias = record { chan = codes "#c"; from = codes "!r"; to = codes "!roll" }

-- A bot with that alias, whose plugin has access everywhere.
abbrev alias_bot : Bot
alias_bot = record (bot ((codes "command.alias", line_of roll_alias ∷ []) ∷ []) [] (plugin ∷ [])) {
  chan_access = (codes "*", record { plugin = plugin.name; prefix = [] } ∷ []) ∷ [];
}

abbrev banned_bot : Bot
banned_bot = bot ((codes "ban", codes "u@h" ∷ []) ∷ []) [] (plugin ∷ [])

execute_unbanned-eq-execute_example :
    execute_unbanned world (codes "!roll") (says (codes "!roll")) banned_bot
    ≡ execute world (codes "!roll") (says (codes "!roll")) banned_bot
execute_unbanned-eq-execute_example =
    execute_unbanned-eq-execute world (codes "!roll") (says (codes "!roll")) banned_bot

typed_bad : get_user_params hol (says (codes "!die bad")) ≡ codes "bad" ++ []
unfolding get_user_params get_trailing getparams gettrailing getmiddle peek get hol getline
typed_bad = refl

locked : get_vec (codes "password") locked_bot ≡ codes "secret" ∷ []
unfolding get_vec at same_key ci_cmp ci_fix lex
locked = refl

wrong_password-OnlyReplies_example :
    (bot_die world (codes "!die") (says (codes "!die bad")) locked_bot
      ≡ fc_reply (says (codes "!die bad")) (codes "Wrong password") locked_bot)
    × (bot_restart world (says (codes "!die bad")) locked_bot
        ≡ fc_reply (says (codes "!die bad")) (codes "Wrong password") locked_bot)
    × (bot_pset world (says (codes "!die bad")) locked_bot
        ≡ fc_reply (says (codes "!die bad")) (codes "Incorrect password.") locked_bot)
    × (bot_reconfigure world 9 (says (codes "!die bad")) locked_bot
        ≡ some (fc_reply (says (codes "!die bad")) (codes "Wrong password") locked_bot))
wrong_password-OnlyReplies_example =
    wrong_password-OnlyReplies world (codes "!die") 9 (says (codes "!die bad")) locked_bot
      (codes "bad") [] (codes "secret") [] typed_bad (ground arith, refl) tt locked (cc)

greet-IsKey : IsKey world (codes "greet")
unfolding hol
greet-IsKey = record { no_colon = ground arith; plain = refl; trimmed = refl }

pset_key-quoted_example :
    get_vec (codes "password") (
      pset_key world
        (says [])
        (good (codes "greet" ++ b':' ∷ quoted (codes "hi" ∷ codes "yo" ∷ [])))
        locked_bot)
    ≡ (if same_key false (codes "greet") (codes "password")
        then map hol.trim (codes "hi" ∷ codes "yo" ∷ [])
        else get_vec (codes "password") locked_bot)
pset_key-quoted_example =
    pset_key-quoted world (says []) (codes "greet") (codes "hi") (codes "yo" ∷ []) locked_bot
      greet-IsKey ((cc, ground arith), ((cc, ground arith), tt)) (tt, tt) (codes "password")

-- ===== src/Bot/Tests/Startup.antt =====
-- The theorems on connecting, plugins, the configuration and the message loop, at concrete bots.
use skivvy.Base.{true, false, ◌≡◌, refl, none, some, [], ◌∷◌, ◌++◌, arith, Str, codes}
use skivvy.Hol.Model.{hol, hol-IsHol}
use skivvy.Message.{Message}
use skivvy.Message.Parse.{wire, Shows}
use skivvy.Flood.{has_key}
use skivvy.Flood.Channels.{IsDistinct}
use skivvy.Store.{StrVecMap, lines, at}
use skivvy.Bot.{Bot, Plugin, sent}
use skivvy.Bot.Config.{Loading, load_props, cut_comment, section_name}
use skivvy.Bot.Plugins.{load_plugin}
use skivvy.Bot.Loop.{received, loop_round}
use skivvy.Bot.Unique.{ids, without, load_plugin-IsDistinct}
use skivvy.Bot.SignOn.{refused_nicks, sign_ons, refused_nicks-sign_ons}
use skivvy.Bot.SettingLine.{IsSetting}
use skivvy.Bot.Settings.{setting_lines, values_of, load_props-settings}
use skivvy.Bot.Answers.{behind, loop_round-pong}
use skivvy.Bot.Tests.{world, bot, plain_bot}

abbrev two_nicks : Bot
two_nicks = bot [] (codes "a" ∷ codes "b" ∷ []) []

refused_nicks-sign_ons_example :
    ((refused_nicks world 2 two_nicks).out ≡ sign_ons two_nicks (codes "a" ∷ codes "b" ∷ []))
    × ((refused_nicks world 2 two_nicks).done ≡ false)
    × ((refused_nicks world 3 two_nicks).out ≡ sign_ons two_nicks (codes "a" ∷ codes "b" ∷ []))
    × ((refused_nicks world 3 two_nicks).done ≡ true)
refused_nicks-sign_ons_example =
    refused_nicks-sign_ons world (codes "a" ∷ codes "b" ∷ []) two_nicks refl refl

load_plugin-IsDistinct_example :
    IsDistinct (ids (load_plugin world (codes "/p/dice.so") plain_bot).1.plugins)
    × ((p : Plugin)
        → world.factory (codes "/p/dice.so") ≡ some p
        → (load_plugin world (codes "/p/dice.so") plain_bot).1.plugins
          ≡ without p.id plain_bot.plugins ++ p ∷ [])
    × (world.factory (codes "/p/dice.so") ≡ none
        → (load_plugin world (codes "/p/dice.so") plain_bot).1 ≡ plain_bot)
load_plugin-IsDistinct_example =
    load_plugin-IsDistinct world (codes "/p/dice.so") plain_bot (unfold has_key in refl, tt)

greet-IsSetting : IsSetting world (codes "greet") (codes "hi")
unfolding hol cut_comment section_name
greet-IsSetting = record {
  kept = refl;
  no_variable = refl;
  no_section = refl;
  plain = refl;
  no_sign = refl;
  no_colon = ground arith;
  key_trimmed = refl;
  val_trimmed = refl;
  val_plain = refl;
  one_line = ground arith;
}

abbrev loading : Loading
loading = record { bot = plain_bot; vars = []; prefix = [] }

greet_lines : lines (codes "greet: hi") ≡ setting_lines ((codes "greet", codes "hi") ∷ [])
unfolding lines
greet_lines = refl

load_props-settings_example :
    (props : StrVecMap) × (load_props world 2 (codes "greet: hi") loading
      ≡ some (record loading { bot = record plain_bot { props = props } }))
    × ((j : Str)
        → at false j props ≡ at false j [] ++ values_of j ((codes "greet", codes "hi") ∷ []))
load_props-settings_example =
    load_props-settings world hol-IsHol 0 (codes "greet: hi") ((codes "greet", codes "hi") ∷ [])
      loading greet_lines (greet-IsSetting, refl, tt) refl refl tt

abbrev ping_line : Str
ping_line = codes " :irc.net PING :irc.net"

ping_trimmed : hol.trim ping_line ≡ wire (codes "irc.net") (codes "PING") [] (codes "irc.net")
unfolding hol
ping_trimmed = refl

loop_round-pong_example :
    (msg : Message) × Shows msg (codes "irc.net") (codes "PING") [] (codes "irc.net")
    × (loop_round world 9 5 5 (received ping_line) plain_bot
        ≡ some (record (behind 5 msg plain_bot) {
          out = (behind 5 msg plain_bot).out ++ sent (codes "PONG irc.net") ∷ [];
        }))
loop_round-pong_example =
    loop_round-pong world 9 5 5 ping_line (codes "irc.net") (codes "irc.net") plain_bot hol-IsHol
      ping_trimmed (ground arith) (cc) (ground arith) (ground arith)

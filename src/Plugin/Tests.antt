-- ===== src/Plugin/Tests.antt =====
-- The commands of a small plugin, and events at concrete times. A function is a number.
use skivvy.Base.{ℕ, false, ◌≡◌, refl, some, List, [], ◌∷◌, Str, codes}
use skivvy.Plugin.{Action, MsgEvent, find_action, help_text}

abbrev actions : List (Str × Action ℕ)
actions =
    (codes "!q", record { cmd = codes "!q"; help = codes "=!quote"; func = some 1; flags = 0 })
    ∷ (
      codes "!quote",
      record { cmd = codes "!quote"; help = codes "a quote"; func = some 2; flags = 0 },
    )
    ∷ (
      codes "!secret",
      record { cmd = codes "!secret"; help = codes "hidden"; func = some 3; flags = 1 },
    )
    ∷ []

help_text-run : help_text actions (codes "!q") ≡ codes "!q a quote"
unfolding help_text find_action
help_text-run = refl

abbrev event : ℕ → ℕ → MsgEvent ℕ
event f t = record { done = false; when = t; timeout = 30; func = f }

abbrev events : List (Str × List (MsgEvent ℕ))
events = (codes "353", event 7 5 ∷ event 8 90 ∷ []) ∷ []

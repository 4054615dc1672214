-- ===== src/Bot/Granted.antt =====
-- Access that is given to a plugin, src/ircbot.cpp: theorems.
use skivvy.Base.{
  false, true, false, ◌≡◌, refl, ◌⊎◌, inl, inr, List, [], ◌∷◌, arith, Str, codes, str_eq,
  str_eq_iff,
}
use skivvy.Store.Order.{lex_total, lex_irrefl}
use skivvy.Message.{Message, from_channel, get_to}
use skivvy.Bot.{Bot, Plugin, ChanPrefix}
use skivvy.Bot.Plugins.{insert_prefix, give_access}
use skivvy.Bot.Access.{has_plugin_name, entries_of, has_access, allow_cmd_access}

insert_prefix-has :
    (c : ChanPrefix) (cs : List ChanPrefix) → has_plugin_name c.plugin (insert_prefix c cs) ≡ true
unfolding insert_prefix
insert_prefix-has c [] = ground (arith, str_eq_iff c.plugin c.plugin)
insert_prefix-has c (d ∷ ds) = ground (
  arith,
  str_eq_iff c.plugin c.plugin,
  str_eq_iff d.plugin c.plugin,
  insert_prefix-has c ds,
  lex_total c.plugin d.plugin,
)

give_access-has :
    (chan : Str) (c : ChanPrefix) (m : List (Str × List ChanPrefix))
    → has_plugin_name c.plugin (entries_of chan (give_access chan c m)) ≡ true
unfolding give_access
give_access-has chan c [] = ground (arith, str_eq_iff chan chan, str_eq_iff c.plugin c.plugin)
give_access-has chan c ((k, cs) ∷ m) = ground (
  arith,
  str_eq_iff chan chan,
  str_eq_iff c.plugin c.plugin,
  str_eq_iff k chan,
  lex_total chan k,
  lex_irrefl chan,
  give_access-has chan c m,
  insert_prefix-has c cs,
)

give_access-other :
    (chan other : Str) (c : ChanPrefix) (m : List (Str × List ChanPrefix))
    → str_eq chan other ≡ false
    → entries_of other (give_access chan c m) ≡ entries_of other m
unfolding give_access
give_access-other chan other c [] h = ground arith
give_access-other chan other c ((k, cs) ∷ m) h = ground (
  arith,
  lex_total chan k,
  str_eq_iff chan other,
  str_eq_iff k other,
  give_access-other chan other c m h,
)

allow_cmd_access-true :
    (p : Plugin) (chan : Str) (msg : Message) (s : Bot)
    → has_access p chan s ≡ true
    → ((from_channel msg ≡ true) × (get_to msg ≡ chan)) ⊎ (chan ≡ codes "*") ⊎ (chan ≡ codes "PM")
    → allow_cmd_access p msg s ≡ true
unfolding allow_cmd_access
allow_cmd_access-true p chan msg s h (inl (f, t)) =
    let k : has_access p (get_to msg) s ≡ true = rw (t) h in ground arith
allow_cmd_access-true p chan msg s h (inr (inl e)) =
    let k : has_access p (codes "*") s ≡ true = rw (← e) h in ground arith
allow_cmd_access-true p chan msg s h (inr (inr e)) =
    let k : has_access p (codes "PM") s ≡ true = rw (← e) h in ground arith

-- Behind an entry for a plugin in a channel, the plugin has access there, whatever its prefix, and
-- so may run its commands for a message to that channel, and everywhere where the channel is `*` or
-- `PM`; in every other channel, exactly the plugins have access that had it before.
has_access-give_access :
    (p : Plugin) (chan prefix : Str) (s s' : Bot)
    → s'.chan_access ≡ give_access chan (record { plugin = p.name; prefix = prefix }) s.chan_access
    → (has_access p chan s' ≡ true)
      × ((msg : Message)
          → ((from_channel msg ≡ true) × (get_to msg ≡ chan))
            ⊎ (chan ≡ codes "*")
            ⊎ (chan ≡ codes "PM")
          → allow_cmd_access p msg s' ≡ true)
      × ((q : Plugin) (other : Str)
          → str_eq chan other ≡ false
          → has_access q other s' ≡ has_access q other s)
unfolding has_access
has_access-give_access p chan prefix s s' h = (
  has,
  λ msg c. allow_cmd_access-true p chan msg s' has c,
  λ q other k.
      rw
        (
          h,
          give_access-other chan other (record { plugin = p.name; prefix = prefix }) s.chan_access
              k,
        )
        refl,
)
  where
    has : has_plugin_name p.name (entries_of chan s'.chan_access) ≡ true
    has = rw (h) (give_access-has chan (record { plugin = p.name; prefix = prefix }) s.chan_access)

-- ===== src/Bot/Plugins.antt =====
-- The plugins of src/ircbot.cpp: adding, finding and deleting them, loading them from their files,
-- initialising them and closing the bot down. A plugin that `factory` makes is never null.
use skivvy.Base.{
  ℕ, zero, suc, Bool, true, false, not, ◌&&◌, ◌||◌, Option, none, some, List, [], ◌∷◌, ◌++◌, ◌==◌,
  if◌then◌else◌, Str, codes, str_eq, length,
}
use skivvy.Stream.{Stream, good}
use skivvy.Message.{mem_str}
use skivvy.Irc
use skivvy.Flood
use skivvy.Store.{lex}
use skivvy.BotDb.{insert_key}
use skivvy.Bot.{World, Bot, Plugin, ChanPrefix, started, exited, does, get_vec, irc}

unfoldable pub add_plugin : Plugin → Bot → Bot
add_plugin p s = record s { plugins = s.plugins ++ p ∷ [] }

abbrev any_plugin : (Plugin → Bool) → List Plugin → Bool
any_plugin f [] = false
any_plugin f (p ∷ ps) = f p || any_plugin f ps

-- `has_plugin(id, version)`, with the order of strings
unfoldable pub has_plugin : Str → Str → Bot → Bool
has_plugin id version s = any_plugin (λ p. str_eq p.id id && not (lex p.version version)) s.plugins

unfoldable pub erase_monitor : Option ℕ → List ℕ → List ℕ
erase_monitor none ms = ms
erase_monitor (some n) [] = []
erase_monitor (some n) (m ∷ ms) =
    let rest = erase_monitor (some n) ms in if m == n then rest else m ∷ rest

-- The loop of `del_plugin`: what is left, and the bot without those that went.
unfoldable pub del_loop : Str → List Plugin → Bot → List Plugin × Bot
del_loop id [] s = ([], s)
del_loop id (p ∷ ps) s =
    let (left, s1) = del_loop id ps s in
    let s' = does (exited p.id) (record s { monitors = erase_monitor p.monitor s.monitors }) in
    let (left', s2) = del_loop id ps s' in if str_eq p.id id then (left', s2) else (p ∷ left, s1)

unfoldable pub del_plugin : Str → Bot → Bot
unfolding del_loop
del_plugin id s = let (left, s1) = del_loop id s.plugins s in record s1 { plugins = left }

-- `chan_access[chan].insert(cpf)`; two entries are the same where their plugins are.
unfoldable pub insert_prefix : ChanPrefix → List ChanPrefix → List ChanPrefix
insert_prefix c [] = c ∷ []
insert_prefix c (d ∷ ds) =
    let rest = insert_prefix c ds in
    if lex c.plugin d.plugin then c ∷ d ∷ ds else if lex d.plugin c.plugin then d ∷ rest else d ∷ ds

unfoldable pub give_access :
    Str → ChanPrefix → List (Str × List ChanPrefix) → List (Str × List ChanPrefix)
give_access chan c [] = (chan, c ∷ []) ∷ []
give_access chan c ((k, cs) ∷ m) =
    let rest = give_access chan c m in
    if lex chan k
    then (chan, c ∷ []) ∷ (k, cs) ∷ m
    else if lex k chan
    then (k, cs) ∷ rest
    else (k, insert_prefix c cs) ∷ m

module _ (w : World) where
  -- `IrcBotPluginLoader`
  unfoldable pub load_plugin : Str → Bot → Option Plugin × Bot
  load_plugin file s = elim (w.factory file) [
    | none ↦ (none, s)
    | some p ↦ (some p, add_plugin p (del_plugin p.id s))
  ]

  -- `while(sgl(iss, chan, ','))`, on fuel above the bytes that are left
  unfoldable pub access_loop :
      ℕ → Str → Stream → List (Str × List ChanPrefix) → List (Str × List ChanPrefix)
  access_loop zero name is m = m
  access_loop (suc fuel) name is m =
      let (chan, is1) = w.hol.sgl b',' [] is in
      let chan' = w.hol.trim chan in
      let (skip, is2) = w.hol.sgl b'(' [] (good chan') in
      let prefix = w.hol.trim (w.hol.sgl b')' [] is2).0 in
      let rest =
        access_loop fuel name is1
          (give_access chan' (record { plugin = name; prefix = prefix }) m) in
      if is1.fail then m else rest

  -- The loop over the directories: the plugin's ids so far, and the bot.
  unfoldable pub load_from : Str → Str → List Str → List Str → Bot → List Str × Bot
  load_from p access [] ids s = (ids, s)
  load_from p access (dir ∷ dirs) ids s =
      let next = load_from p access dirs ids in
      elim (w.ls dir) [
        | none ↦ next s
        | some files ↦
            if mem_str p files
            then (let (loaded, s1) = load_plugin (dir ++ b'/' ∷ p) s in
                elim loaded [
                  | none ↦ next s1
                  | some plugin ↦
                      if mem_str plugin.id ids then (ids, del_plugin plugin.id s1) else (
                        insert_key plugin.id ids,
                        record s1 {
                          chan_access =
                              access_loop (suc (length access)) plugin.name (good access)
                                s1.chan_access;
                        },
                      )
                ])
            else next s
      ]

  load_all : List Str → List Str → List Str → Bot → List Str × Bot
  load_all [] dirs ids s = (ids, s)
  load_all (line ∷ ls) dirs ids s =
      let (p, is) = w.hol.sgl b'[' [] (good line) in
      let (access, is') = w.hol.sgl b']' [] is in
      let (ids', s') = load_from (w.hol.trim p) access dirs ids s in load_all ls dirs ids' s'

  unfoldable pub load_plugins : Bot → Bot
  unfolding load_all
  load_plugins s =
      (load_all (get_vec (codes "plugin") s)
        (get_vec (codes "plugin.dir") s ++ codes "/usr/lib/skivvy" ∷ []) [] s).1

  -- `commands[c] = p->get()`
  unfoldable pub set_command : Str → Plugin → List (Str × Plugin) → List (Str × Plugin)
  set_command c p [] = (c, p) ∷ []
  set_command c p ((k, q) ∷ m) =
      let rest = set_command c p m in
      if lex c k then (c, p) ∷ (k, q) ∷ m else if lex k c then (k, q) ∷ rest else (k, p) ∷ m

  unfoldable pub register : List Str → Plugin → List (Str × Plugin) → List (Str × Plugin)
  register [] p m = m
  register (c ∷ cs) p m = register cs p (set_command c p m)

  -- The loop that initialises the plugins: those that are kept, and the bot.
  init_loop : List Plugin → Bot → List Plugin × Bot
  init_loop [] s = ([], s)
  init_loop (p ∷ ps) s =
      let s1 = does (started p.id) s in
      let (left, s2) = init_loop ps s1 in
      let (left', s3) = init_loop ps (record s1 { commands = register p.commands p s1.commands }) in
      if w.starts p then (p ∷ left', s3) else (left, s2)

  unfoldable pub init_plugins : Bot → Bot
  unfolding init_loop
  init_plugins s = let (left, s1) = init_loop s.plugins s in record s1 { plugins = left }

exit_plugins : List Plugin → Bot → Bot
exit_plugins [] s = s
exit_plugins (p ∷ ps) s = exit_plugins ps (does (exited p.id) s)

-- `exit()`, where the pinger ends in time
unfoldable pub exit : World → Bot → Bot
unfolding exit_plugins
exit w s =
    let s1 = exit_plugins s.plugins s in
    let s2 = record s1 { fc = Flood.stop s1.fc; done = true } in
    (Irc.quit (irc w)
      (if s2.restart then codes "Reeeeeeeeeeeeeeeeeeeboot!" else codes "Going off line...") s2).0

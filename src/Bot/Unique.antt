-- ===== src/Bot/Unique.antt =====
-- The plugins of the bot by their ids, src/ircbot.cpp: theorems.
use skivvy.Base.{
  true, false, ◌≡◌, refl, ap, ◌∙◌, none, some, List, [], ◌∷◌, ◌++◌, arith, Str, str_eq, str_eq_iff,
  if◌then◌else◌, Bool-cases, Option-cases, inl, inr, append-nil,
}
use skivvy.Flood.{has_key}
use skivvy.Flood.Channels.{IsDistinct, IsDistinct-snoc}
use skivvy.Message.{mem_str}
use skivvy.Bot.{World, Bot, Plugin}
use skivvy.Bot.Plugins.{del_loop, del_plugin, add_plugin, load_plugin, load_from}

abbrev pub without : Str → List Plugin → List Plugin
without id [] = []
without id (p ∷ ps) = if str_eq p.id id then without id ps else p ∷ without id ps

abbrev pub ids : List Plugin → List Str
ids [] = []
ids (p ∷ ps) = p.id ∷ ids ps

del_loop-without : (id : Str) (ps : List Plugin) (s : Bot) → (del_loop id ps s).0 ≡ without id ps
unfolding del_loop
del_loop-without id [] s = refl
del_loop-without id (p ∷ ps) s = elim (Bool-cases (str_eq p.id id)) [
  | inl e ↦ rw (e) (del_loop-without id ps _)
  | inr e ↦ rw (e) (ap (λ (l : List Plugin). p ∷ l) (del_loop-without id ps s))
]

has_key-without :
    (id j : Str) (ps : List Plugin)
    → has_key j (ids (without id ps)) ≡ (if str_eq id j then false else has_key j (ids ps))
unfolding has_key
has_key-without id j [] = ground arith
has_key-without id j (p ∷ ps) =
    ground (arith, has_key-without id j ps, str_eq_iff p.id id, str_eq_iff p.id j, str_eq_iff id j)

without-IsDistinct :
    (id : Str) (ps : List Plugin) → IsDistinct (ids ps) → IsDistinct (ids (without id ps))
without-IsDistinct id [] d = tt
without-IsDistinct id (p ∷ ps) (d, ds) = elim (Bool-cases (str_eq p.id id)) [
  | inl e ↦ rw (e) (without-IsDistinct id ps ds)
  | inr e ↦ rw (e) (ground (arith, has_key-without id p.id ps), without-IsDistinct id ps ds)
]

ids-snoc : (ps : List Plugin) (p : Plugin) → ids (ps ++ p ∷ []) ≡ ids ps ++ p.id ∷ []
ids-snoc [] p = refl
ids-snoc (q ∷ ps) p = ap (λ (l : List Str). q.id ∷ l) (ids-snoc ps p)

load_plugin-plugins :
    (w : World) (file : Str) (p : Plugin) (s : Bot)
    → w.factory file ≡ some p
    → (load_plugin w file s).1.plugins ≡ without p.id s.plugins ++ p ∷ []
unfolding load_plugin add_plugin del_plugin
load_plugin-plugins w file p s h =
    rw (h, load_plugin) (ap (λ (l : List Plugin). l ++ p ∷ []) (del_loop-without p.id s.plugins s))

-- Loading a file keeps the ids of the plugins apart. Where the file makes a plugin it is the last one then and has
-- taken the place of every plugin of its id, the others stay in order; where it makes none, nothing changes.
pub load_plugin-IsDistinct :
    (w : World) (file : Str) (s : Bot)
    → IsDistinct (ids s.plugins)
    → IsDistinct (ids (load_plugin w file s).1.plugins)
      × ((p : Plugin)
          → w.factory file ≡ some p
          → (load_plugin w file s).1.plugins ≡ without p.id s.plugins ++ p ∷ [])
      × (w.factory file ≡ none → (load_plugin w file s).1 ≡ s)
unfolding load_plugin
load_plugin-IsDistinct w file s d = (
  elim (Option-cases (w.factory file)) [
    | inl h ↦ rw (h, load_plugin) d
    | inr (p, h) ↦
        rw (load_plugin-plugins w file p s h, ids-snoc (without p.id s.plugins) p)
          (IsDistinct-snoc p.id (ids (without p.id s.plugins))
            (ground (arith, has_key-without p.id p.id s.plugins, str_eq_iff p.id p.id))
            (without-IsDistinct p.id s.plugins d))
  ],
  λ p h. load_plugin-plugins w file p s h,
  λ h. rw (h, load_plugin) refl,
)

without-append :
    (id : Str) (ps qs : List Plugin) → without id (ps ++ qs) ≡ without id ps ++ without id qs
without-append id [] qs = refl
without-append id (p ∷ ps) qs = ground (arith, without-append id ps qs)

without_twice : (id : Str) (ps : List Plugin) → without id (without id ps) ≡ without id ps
without_twice id [] = refl
without_twice id (p ∷ ps) = ground (arith, without_twice id ps)

without-loaded :
    (p : Plugin) (ps : List Plugin) → without p.id (without p.id ps ++ p ∷ []) ≡ without p.id ps
without-loaded p ps =
    let same : str_eq p.id p.id ≡ true = (str_eq_iff p.id p.id).1 refl in
    without-append p.id (without p.id ps) (p ∷ [])
    ∙ rw (same, without_twice p.id ps) (append-nil (without p.id ps))

del_plugin-plugins : (id : Str) (s : Bot) → (del_plugin id s).plugins ≡ without id s.plugins
unfolding del_plugin
del_plugin-plugins id s = del_loop-without id s.plugins s

-- A file whose plugin has the id of one that an earlier line has loaded: of this id no plugin is left,
-- neither the new one nor the one before, and the others stay in order.
pub load_from_twice :
    (w : World) (name access dir : Str) (dirs files seen : List Str) (p : Plugin) (s : Bot)
    → w.ls dir ≡ some files
    → mem_str name files ≡ true
    → w.factory (dir ++ b'/' ∷ name) ≡ some p
    → mem_str p.id seen ≡ true
    → (load_from w name access (dir ∷ dirs) seen s).1.plugins ≡ without p.id s.plugins
unfolding load_from load_plugin
load_from_twice w name access dir dirs files seen p s hl hf hp hs =
    rw (hl, load_from)
      (rw (hf, hp, hs)
        (del_plugin-plugins p.id _
          ∙ ap (without p.id) (load_plugin-plugins w (dir ++ b'/' ∷ name) p s hp)
          ∙ without-loaded p s.plugins))

-- ===== src/Bot/Settings.antt =====
-- What the configuration file of src/ircbot.cpp sets: theorems.
use skivvy.Base.{
  ℕ, zero, suc, Bool, true, false, ◌≡◌, refl, sym, ap, ◌∙◌, Option, none, some, List, [], ◌∷◌, ◌++◌,
  append_assoc, append-nil, arith, ◌||◌, inl, inr, Str, codes, Bool-cases, str_eq, if◌then◌else◌,
  else_of,
}
use skivvy.Hol.{IsHol}
use skivvy.Message.{starts_with_char}
use skivvy.Store.{update, lines, StrVecMap, at, same_key, ci_fix}
use skivvy.Store.Map.{IsSorted, at-update, update-IsSorted}
use skivvy.Store.Order.{same_key_iff}
use skivvy.Bot.{World}
use skivvy.Bot.Config.{
  Loading, replace_env, include_name, set_key, load_props_line, load_props_lines, load_props,
}
use skivvy.Bot.SettingLine.{IsSetting, load_props_line-set_key, no_comment}

-- The keys that have a meaning of their own.
abbrev pub is_special : Str → Bool
is_special key =
    str_eq key (codes "nick")
    || str_eq key (codes "user")
    || str_eq key (codes "mode")
    || str_eq key (codes "real")
    || str_eq key (codes "include")

-- The lines of the settings, and the properties that they make, one after another.
abbrev pub setting_lines : List (Str × Str) → List Str
setting_lines [] = []
setting_lines ((k, v) ∷ ps) = (k ++ b':' ∷ b' ' ∷ v) ∷ setting_lines ps

set_all : List (Str × Str) → StrVecMap → StrVecMap
set_all [] m = m
set_all ((k, v) ∷ ps) m = set_all ps (update false k (λ vs. vs ++ v ∷ []) m)

-- The values that settings give for a key, in order.
abbrev pub values_of : Str → List (Str × Str) → List Str
values_of j [] = []
values_of j ((k, v) ∷ ps) = if same_key false k j then v ∷ values_of j ps else values_of j ps

abbrev pub AreSettings : World → List (Str × Str) → Type 0
AreSettings w [] = Unit
AreSettings w ((k, v) ∷ ps) = IsSetting w k v × (is_special k ≡ false) × AreSettings w ps

with_props : StrVecMap → Loading → Loading
with_props m st = record st { bot = record st.bot { props = m } }

set_key-props :
    (w : World) (include : Str → Loading → Option Loading) (key val : Str) (st : Loading)
    → is_special key ≡ false
    → set_key w include key val st
      ≡ some (with_props (update false key (λ vs. vs ++ val ∷ []) st.bot.props) st)
unfolding set_key with_props
set_key-props w include key val st h =
    let a : str_eq key (codes "nick") ≡ false = ground arith in
    let b : str_eq key (codes "user") ≡ false = ground arith in
    let c : str_eq key (codes "mode") ≡ false = ground arith in
    let d : str_eq key (codes "real") ≡ false = ground arith in
    let e : str_eq key (codes "include") ≡ false = ground arith in rw (a, b, c, d, e) refl

load_props_lines-set_all :
    (w : World) (l : IsHol w.hol) (fuel : ℕ) (include : Str → Loading → Option Loading)
    (ps : List (Str × Str)) (st : Loading)
    → AreSettings w ps
    → st.prefix ≡ []
    → st.vars ≡ []
    → load_props_lines w (suc fuel) include (setting_lines ps) st
      ≡ some (with_props (set_all ps st.bot.props) st)
unfolding load_props_lines set_all with_props
load_props_lines-set_all w l fuel include [] st k h v = refl
load_props_lines-set_all w l fuel include ((key, val) ∷ ps) st (k, n, ks) h v =
    rw
      (
        load_props_line-set_key w l fuel include key val st k h v,
        set_key-props w include key val st n,
      )
      (load_props_lines-set_all w l fuel include ps
        (with_props (update false key (λ vs. vs ++ val ∷ []) st.bot.props) st) ks h v)

at-set_all :
    (j : Str) (ps : List (Str × Str)) (m : StrVecMap)
    → IsSorted false m
    → at false j (set_all ps m) ≡ at false j m ++ values_of j ps
unfolding set_all ci_fix
at-set_all j [] m s = sym (append-nil (at false j m))
at-set_all j ((k, v) ∷ ps) m s =
    at-set_all j ps (update false k (λ vs. vs ++ v ∷ []) m)
      (update-IsSorted false k (λ vs. vs ++ v ∷ []) m s)
    ∙ rw (at-update false j k (λ vs. vs ++ v ∷ []) m s) (elim (Bool-cases (same_key false k j)) [
      | inl e ↦ rw (e) (
          append_assoc (at false k m) (v ∷ []) (values_of j ps)
          ∙ ap (λ (i : Str). at false i m ++ v ∷ values_of j ps) ((same_key_iff false k j).0 e))
      | inr e ↦ rw (e) refl
    ])

-- A file of lines `key: value` without keys of special meaning, read outside sections and variables:
-- the reader returns, nothing but the properties has changed, and the values of each key are those it
-- had with those of the file behind, in the file's order.
pub load_props-settings :
    (w : World)
    → IsHol w.hol
    → (fuel : ℕ) (text : Str) (ps : List (Str × Str)) (st : Loading) → lines text ≡ setting_lines ps
    → AreSettings w ps
    → st.prefix ≡ []
    → st.vars ≡ []
    → IsSorted false st.bot.props
    → (props : StrVecMap) × (load_props w (suc (suc fuel)) text st
        ≡ some (record st { bot = record st.bot { props = props } }))
      × ((j : Str) → at false j props ≡ at false j st.bot.props ++ values_of j ps)
unfolding load_props with_props
load_props-settings w l fuel text ps st e k h v sorted = (
  set_all ps st.bot.props,
  rw (e) (load_props_lines-set_all w l fuel (load_props w (suc fuel)) ps st k h v),
  λ j. at-set_all j ps st.bot.props sorted,
)

-- The key `include` with a file's name reads that file.
set_key-include :
    (w : World) (include : Str → Loading → Option Loading) (name text : Str) (st : Loading)
    → starts_with_char (b'/' ∷ []) name ≡ true
    → w.file name ≡ some text
    → set_key w include (codes "include") name st ≡ include text st
unfolding set_key include_name
set_key-include w include [] text st h k = cc
set_key-include w include (c ∷ name) text st h k = rw (h, k) refl

load_props_line-zero :
    (w : World) (include : Str → Loading → Option Loading) (key val : Str) (st : Loading)
    → IsSetting w key val
    → load_props_line w zero include (key ++ b':' ∷ b' ' ∷ val) st ≡ none
unfolding load_props_line replace_env
load_props_line-zero w include key val st k =
    rw (k.kept, load_props_line)
      (else_of _ _ _ (no_comment key (b':' ∷ b' ' ∷ val) k.plain k.no_sign))

-- A file whose first line includes the file itself, by its full path: however much fuel there is, the
-- reader does not return.
load_props_self :
    (w : World)
    → IsHol w.hol
    → (fuel : ℕ) (name text : Str) (rest : List Str) (st : Loading)
    → IsSetting w (codes "include") name
    → starts_with_char (b'/' ∷ []) name ≡ true
    → w.file name ≡ some text
    → lines text ≡ (codes "include" ++ b':' ∷ b' ' ∷ name) ∷ rest
    → st.prefix ≡ []
    → st.vars ≡ []
    → load_props w fuel text st ≡ none
unfolding load_props load_props_lines
load_props_self w l zero name text rest st k n f e h v = refl
load_props_self w l (suc zero) name text rest st k n f e h v =
    rw (e, load_props_line-zero w (load_props w zero) (codes "include") name st k) refl
load_props_self w l (suc (suc fuel)) name text rest st k n f e h v =
    rw
      (
        e,
        load_props_line-set_key w l fuel (load_props w (suc fuel)) (codes "include") name st k h v,
        set_key-include w (load_props w (suc fuel)) name text st n f,
        load_props_self w l (suc fuel) name text rest st k n f e h v,
      )
      refl

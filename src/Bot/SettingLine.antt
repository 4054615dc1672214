-- ===== src/Bot/SettingLine.antt =====
-- One line `key: value` of the configuration file of src/ircbot.cpp: lemmas.
use skivvy.Base.{
  ℕ, suc, Bool, true, false, not, ◌&&◌, ◌≡◌, refl, ap, ◌∙◌, Option, none, some, List, [], ◌∷◌, ◌++◌,
  arith, ◌||◌, ◌==◌, Str, codes, is_empty, is_space, Lacks, else_of,
}
use skivvy.Hol.{IsHol, is_prefix}
use skivvy.Stream.{good, skip_ws}
use skivvy.Stream.Laws.{getline_cut, getline_all}
use skivvy.Message.{starts_with_char}
use skivvy.Bot.{World}
use skivvy.Bot.Config.{
  Loading, cut_comment, section_name, replace_vars, replace_env, key_value, set_key, prefixed_line,
  load_pair, load_setting, load_props_line,
}
use skivvy.Bot.Strings.{starts_plain, skip_ws-key, plain-is_empty}

-- A line `key: value` that stands for itself: nothing in it is a comment, a variable or a section.
pub record IsSetting (w : World) (key val : Str) : Type 0 where
  pub kept : w.hol.trim (cut_comment (key ++ (b':' ∷ b' ' ∷ val))) ≡ key ++ b':' ∷ b' ' ∷ val
  pub no_variable : w.extract (key ++ b':' ∷ b' ' ∷ val) (codes "${") (codes "}") 0 ≡ none
  pub no_section : section_name (key ++ b':' ∷ b' ' ∷ val) ≡ none
  pub plain : starts_plain key ≡ true
  pub no_sign : starts_with_char (codes "#$") key ≡ false
  pub no_colon : Lacks b':' key
  pub key_trimmed : w.hol.trim key ≡ key
  pub val_trimmed : w.hol.trim val ≡ val
  pub val_plain : starts_plain val ≡ true
  pub one_line : Lacks 10 val

skip_ws-space : (val : Str) → starts_plain val ≡ true → skip_ws (good (b' ' ∷ val)) ≡ good val
unfolding skip_ws
skip_ws-space [] h = cc
skip_ws-space (c ∷ val) h = let n : is_space c ≡ false = ground arith in rw (n) refl

key_value-setting :
    (w : World) (l : IsHol w.hol) (key val : Str)
    → IsSetting w key val
    → key_value w (key ++ b':' ∷ b' ' ∷ val) ≡ some (key, val)
unfolding key_value
key_value-setting w l key val k =
    rw
      (
        skip_ws-key key (b':' ∷ b' ' ∷ val) k.plain,
        l.sgl_getline b':' [] (good (key ++ b':' ∷ b' ' ∷ val)),
        getline_cut b':' [] key (b' ' ∷ val) k.no_colon,
        skip_ws-space val k.val_plain,
        l.sgl_getline 10 [] (good val),
        getline_all 10 [] val k.one_line,
        plain-is_empty val k.val_plain,
        k.key_trimmed,
        k.val_trimmed,
      )
      refl

and_false : (b : Bool) (s : Str) → s ≡ [] → (b && not (is_empty s)) ≡ false
and_false true s h = rw (h) refl
and_false false s h = refl

load_pair-set_key :
    (w : World) (l : IsHol w.hol) (include : Str → Loading → Option Loading) (key val : Str)
    (st : Loading)
    → IsSetting w key val
    → load_pair w include (key ++ b':' ∷ b' ' ∷ val) st ≡ set_key w include key val st
unfolding load_pair
load_pair-set_key w l include [] val st k = let n = k.plain in cc
load_pair-set_key w l include (c ∷ key) val st k =
    let n : (b'$' == c) ≡ false = let m = k.no_sign in ground arith in
    let n' : (c == b'$') ≡ false = ground arith in
    rw (n', key_value-setting w l (c ∷ key) val k) refl

load_setting-set_key :
    (w : World) (l : IsHol w.hol) (include : Str → Loading → Option Loading) (key val : Str)
    (st : Loading)
    → IsSetting w key val
    → st.prefix ≡ []
    → load_setting w include (key ++ b':' ∷ b' ' ∷ val) st ≡ set_key w include key val st
unfolding load_setting prefixed_line
load_setting-set_key w l include key val st k h =
    rw (k.no_section, load_setting)
      (ap (λ (full : Str). load_pair w include full st)
          (else_of _ _ _
            (and_false (not (is_prefix (codes "include:") (key ++ b':' ∷ b' ' ∷ val))) st.prefix h))
        ∙ load_pair-set_key w l include key val st k)

pub no_comment :
    (key rest : Str)
    → starts_plain key ≡ true
    → starts_with_char (codes "#$") key ≡ false
    → (is_empty (key ++ rest) || starts_with_char (b'#' ∷ []) (key ++ rest)) ≡ false
no_comment [] rest h k = cc
no_comment (c ∷ key) rest h k = ground arith

replace_env-none :
    (w : World) (fuel : ℕ) (line : Str)
    → w.extract line (codes "${") (codes "}") 0 ≡ none
    → replace_env w (suc fuel) line 0 ≡ some line
unfolding replace_env
replace_env-none w fuel line h = rw (h, replace_env) refl

replace_all-none :
    (w : World) (fuel : ℕ) (vars : List (Str × Str)) (line : Str)
    → vars ≡ []
    → w.extract line (codes "${") (codes "}") 0 ≡ none
    → replace_env w (suc fuel) (replace_vars w vars line) 0 ≡ some line
unfolding replace_vars
replace_all-none w fuel vars line v h = rw (v) (replace_env-none w fuel line h)

pub load_props_line-set_key :
    (w : World) (l : IsHol w.hol) (fuel : ℕ) (include : Str → Loading → Option Loading)
    (key val : Str) (st : Loading)
    → IsSetting w key val
    → st.prefix ≡ []
    → st.vars ≡ []
    → load_props_line w (suc fuel) include (key ++ b':' ∷ b' ' ∷ val) st
      ≡ set_key w include key val st
unfolding load_props_line
load_props_line-set_key w l fuel include key val st k h v =
    rw (k.kept, load_props_line)
      (else_of _ _ _ (no_comment key (b':' ∷ b' ' ∷ val) k.plain k.no_sign)
        ∙ rw (replace_all-none w fuel st.vars (key ++ b':' ∷ b' ' ∷ val) v k.no_variable)
            (load_setting-set_key w l include key val st k h))

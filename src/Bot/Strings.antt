-- ===== src/Bot/Strings.antt =====
-- What `ios::getstring` reads of strings in quotes, and `!pset` with it: theorems.
use skivvy.Base.{
  ℕ, zero, suc, ◌≤◌, ◌<◌, Bool, true, false, not, ◌≡◌, ◌≢◌, refl, ap, List, [], ◌∷◌, ◌++◌, arith,
  ◌||◌, map, Str, codes, str_eq, if◌then◌else◌, is_empty, length, length-append, Lacks, All,
  is_space,
}
use skivvy.Stream.{good, peek, skip_ws, get, getline}
use skivvy.Stream.Laws.{getline_cut}
use skivvy.Store.{StrVecMap, update, at, contains, same_key}
use skivvy.Store.Map.{IsSorted, at-update, same_refl}
use skivvy.Message.{Message}
use skivvy.Bot.{World, Bot, have, get_vec, get_prop, head_or, fc_reply, fc_send}
use skivvy.Bot.Text.{getstring, until_term}
use skivvy.Bot.Builtins.{strings, all_strings, pass_ok, pset_key, show_values}

-- Strings in quotes, each behind a space.
unfoldable pub quoted : List Str → Str
quoted [] = []
quoted (v ∷ vs) = b' ' ∷ 34 ∷ (v ++ 34 ∷ quoted vs)

-- A string that quotes hold: it is not empty and has no quote.
abbrev pub IsQuotable : Str → Type 0
IsQuotable v = (v ≢ []) × Lacks 34 v

until_term-append : (v rest : Str) → Lacks 34 v → until_term 34 (v ++ 34 ∷ rest) ≡ (v, rest)
unfolding until_term
until_term-append [] rest h = refl
until_term-append (c ∷ v) rest (h, k) = ground (arith, until_term-append v rest k)

getstring-quoted :
    (v rest : Str)
    → IsQuotable v
    → getstring [] (good (b' ' ∷ 34 ∷ (v ++ 34 ∷ rest))) ≡ (v, good rest)
unfolding getstring peek skip_ws get
getstring-quoted [] rest (h, k) = ground (arith, h refl)
getstring-quoted (c ∷ v) rest (h, k) = rw (until_term-append (c ∷ v) rest k) refl

length-quoted : (vs : List Str) → length vs ≤ length (quoted vs)
unfolding quoted
length-quoted [] = ground arith
length-quoted (v ∷ vs) = ground (arith, length-append v (34 ∷ quoted vs), length-quoted vs)

strings-quoted :
    (fuel : ℕ) (vs : List Str)
    → length vs < fuel
    → All IsQuotable vs
    → strings fuel (good (quoted vs)) ≡ vs
unfolding strings quoted getstring peek skip_ws get
strings-quoted zero vs h k = ground arith
strings-quoted (suc fuel) [] h k = refl
strings-quoted (suc fuel) (v ∷ vs) h (k, ks) =
    rw (getstring-quoted v (quoted vs) k)
      (ap (λ l. v ∷ l) (strings-quoted fuel vs (ground arith) ks))

all_strings-quoted : (vs : List Str) → All IsQuotable vs → all_strings (good (quoted vs)) ≡ vs
unfolding all_strings
all_strings-quoted vs h =
    strings-quoted (suc (length (quoted vs))) vs (ground (arith, length-quoted vs)) h

abbrev pub starts_plain : Str → Bool
starts_plain [] = false
starts_plain (c ∷ s) = not (is_space c)

-- A key that stands before its colon: it is not empty, begins with no space and loses nothing to `trim`.
pub record IsKey (w : World) (key : Str) : Type 0 where
  pub no_colon : Lacks b':' key
  pub plain : starts_plain key ≡ true
  pub trimmed : w.hol.trim key ≡ key

pub skip_ws-key :
    (key rest : Str) → starts_plain key ≡ true → skip_ws (good (key ++ rest)) ≡ good (key ++ rest)
unfolding skip_ws
skip_ws-key [] rest h = cc
skip_ws-key (c ∷ key) rest h = let n : is_space c ≡ false = ground arith in rw (n) refl

pub plain-is_empty : (key : Str) → starts_plain key ≡ true → is_empty key ≡ false
plain-is_empty [] h = cc
plain-is_empty (c ∷ key) h = refl

getline-key :
    (w : World) (key rest : Str)
    → IsKey w key
    → getline b':' [] (skip_ws (good (key ++ b':' ∷ rest))) ≡ (key, good rest)
getline-key w key rest k =
    rw (skip_ws-key key (b':' ∷ rest) k.plain) (getline_cut b':' [] key rest k.no_colon)

show_values-props :
    (msg : Message) (key : Str) (i : ℕ) (vs : List Str) (s : Bot)
    → (show_values msg key i vs s).props ≡ s.props
unfolding show_values fc_reply fc_send
show_values-props msg key i [] s = refl
show_values-props msg key i (v ∷ vs) s = show_values-props msg key (suc i) vs _

-- The part of `!pset` behind its password, with a key and one or more strings in quotes, none of them
-- empty: the property has exactly these values then, each trimmed, and every other property the values
-- it had. The key is one that `IsKey` describes, and no string holds a quote.
pub pset_key-quoted :
    (w : World) (msg : Message) (key : Str) (v : Str) (vs : List Str) (s : Bot)
    → IsKey w key
    → All IsQuotable (v ∷ vs)
    → IsSorted false s.props
    → (j : Str)
    → get_vec j (pset_key w msg (good (key ++ b':' ∷ quoted (v ∷ vs))) s)
      ≡ (if same_key false key j then map w.hol.trim (v ∷ vs) else get_vec j s)
unfolding pset_key fc_reply fc_send get_vec
pset_key-quoted w msg key v vs s k q sorted j =
    rw
      (
        getline-key w key (quoted (v ∷ vs)) k,
        k.trimmed,
        all_strings-quoted (v ∷ vs) q,
        plain-is_empty key k.plain,
      )
      (at-update false j key (λ u. map w.hol.trim (v ∷ vs)) s.props sorted)

contains-update :
    (k : Str) (f : List Str → List Str) (m : StrVecMap)
    → contains false k (update false k f m) ≡ true
unfolding contains update same_key
contains-update k f [] = ground (arith, same_refl false k)
contains-update k f ((j, vs) ∷ m) = ground (arith, same_refl false k, contains-update k f m)

at-missing : (k : Str) (m : StrVecMap) → contains false k m ≡ false → at false k m ≡ []
unfolding at contains
at-missing k [] h = refl
at-missing k ((j, vs) ∷ m) h = ground (arith, at-missing k m)

empty_password :
    (b : Bool) (vs : List Str) (pass : Str)
    → b ≡ true
    → vs ≡ []
    → pass ≢ []
    → (not b || str_eq (head_or [] vs) pass) ≡ false
empty_password b vs [] h k n = ground (arith, n refl)
empty_password b vs (c ∷ pass) h k n = rw (h, k) refl

pset_key-asked :
    (w : World) (msg : Message) (s : Bot)
    → IsKey w (codes "password")
    → (pset_key w msg (good (codes "password" ++ b':' ∷ [])) s).props
      ≡ update false (codes "password") (λ vs. vs) s.props
unfolding pset_key quoted
pset_key-asked w msg s k =
    rw (getline-key w (codes "password") [] k, k.trimmed, all_strings-quoted [] tt)
      (show_values-props msg (codes "password") 0 _ _)

-- `!pset` that asks for the password of a bot that has none: the property is there from then on, with
-- no value, and no password that can be typed is right any more.
pub pset_key-password :
    (w : World) (msg : Message) (s : Bot)
    → IsKey w (codes "password")
    → IsSorted false s.props
    → have (codes "password") s ≡ false
    → (pass : Str) → pass ≢ []
    → (pass_ok pass s ≡ true)
      × (pass_ok pass (pset_key w msg (good (codes "password" ++ b':' ∷ [])) s) ≡ false)
unfolding pass_ok have get_prop get_vec
pset_key-password w msg s k sorted h pass n = (
  rw (h) refl,
  rw (pset_key-asked w msg s k) (
      empty_password _
        (at false (codes "password") (update false (codes "password") (λ vs. vs) s.props)) pass
        (contains-update (codes "password") (λ vs. vs) s.props)
        (rw
          (
            at-update false (codes "password") (codes "password") (λ vs. vs) s.props sorted,
            same_refl false (codes "password"),
          )
          (at-missing (codes "password") s.props h))
        n),
)

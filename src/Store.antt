-- ===== src/Store.antt =====
-- The key-value stores, src/include/skivvy/store.h: the order of the keys, the map of vectors
-- that every store holds, and the text of their files.
pub mod Order
pub mod Map
pub mod Backup
pub mod File
use skivvy.Base.{
  ℕ, Bool, true, false, not, ◌&&◌, List, [], ◌∷◌, ◌++◌, map, ltb, ◌==◌, if◌then◌else◌, Str,
  to_lower,
}

-- `operator<` of `std::string`
unfoldable pub lex : Str → Str → Bool
lex [] [] = false
lex [] (d ∷ t) = true
lex (c ∷ s) [] = false
lex (c ∷ s) (d ∷ t) =
    let rest = lex s t in if ltb c d then true else if ltb d c then false else rest

-- What `ci_cmp_type` compares of a key, and `ci_fix`.
unfoldable pub ci_fix : Bool → Str → Str
ci_fix ci s = if ci then map to_lower s else s

-- `ci_cmp_type{ci}(a, b)`
unfoldable pub ci_cmp : Bool → Str → Str → Bool
ci_cmp ci a b = lex (ci_fix ci a) (ci_fix ci b)

-- Two keys are one for a map if neither is less.
unfoldable pub same_key : Bool → Str → Str → Bool
same_key ci a b = not (ci_cmp ci a b) && not (ci_cmp ci b a)

-- `std::map<str, str_vec, ci_cmp_type>`, in its order
abbrev pub StrVecMap : Type 0
StrVecMap = List (Str × List Str)

-- `f` applied to `store[k]`, which makes a missing key.
unfoldable pub update : Bool → Str → (List Str → List Str) → StrVecMap → StrVecMap
update ci k f [] = (k, f []) ∷ []
update ci k f ((j, vs) ∷ m) =
    let rest = update ci k f m in
    if ci_cmp ci k j
    then (k, f []) ∷ (j, vs) ∷ m
    else if ci_cmp ci j k
    then (j, vs) ∷ rest
    else (j, f vs) ∷ m

-- The value of `store[k]`.
unfoldable pub at : Bool → Str → StrVecMap → List Str
at ci k [] = []
at ci k ((j, vs) ∷ m) = let rest = at ci k m in if same_key ci j k then vs else rest

-- `store.find(k) != store.end()`
unfoldable pub contains : Bool → Str → StrVecMap → Bool
contains ci k [] = false
contains ci k ((j, vs) ∷ m) = let rest = contains ci k m in if same_key ci j k then true else rest

abbrev first_cons : ℕ → List Str → List Str
first_cons c [] = (c ∷ []) ∷ []
first_cons c (l ∷ ls) = (c ∷ l) ∷ ls

-- The lines that `std::getline` takes off a text, until it fails.
unfoldable pub lines : Str → List Str
lines [] = []
lines (c ∷ s) = let ls = lines s in if c == 10 then [] ∷ ls else first_cons c ls

-- `res.insert(k)` for a `str_set`
unfoldable pub set_insert : Str → List Str → List Str
set_insert k [] = k ∷ []
set_insert k (j ∷ js) =
    let rest = set_insert k js in
    if lex k j then k ∷ j ∷ js else if lex j k then j ∷ rest else j ∷ js

-- ===== src/Store/Backup.antt =====
-- `MappedStore` and `BackupStore`, src/include/skivvy/store.h: a map in memory that every change
-- writes to its file. The file is its text, or `none` where it cannot be opened to read; whether it
-- can be opened to write is a field of the state. Every
-- method but `has` holds the mutex.
pub mod Text
pub mod Elements
pub mod Change
pub mod Replace
pub mod Persist
mod Tests
use skivvy.Base.{
  ℕ, suc, ◌+◌, ◌-◌, ◌^◌, ◌%◌, Bool, true, false, Option, none, some, List, [], ◌∷◌, ◌++◌, ltb,
  if◌then◌else◌, Str, find_char, take, drop, length, get_elem?, set, replicate, is_nil,
}
use skivvy.Store.{set_insert, StrVecMap, update, at, contains, lines}

pub record Backup : Type 0 where
  pub store : StrVecMap
  pub ci : Bool
  pub file : Option Str
  pub writable : Bool

-- A line of the file: the key stands before the first colon, the value from two behind it.
unfoldable pub load_line : Bool → Str → StrVecMap → StrVecMap
load_line ci line m = elim (find_char b':' line) [
  | none ↦ m
  | some pos ↦ update ci (take pos line) (λ vs. vs ++ drop (pos + 2) line ∷ []) m
]

unfoldable pub load_lines : Bool → List Str → StrVecMap → StrVecMap
load_lines ci [] m = m
load_lines ci (line ∷ ls) m = load_lines ci ls (load_line ci line m)

-- The map that `load` reads from a file.
unfoldable pub load_file : Bool → Option Str → StrVecMap
load_file ci none = []
load_file ci (some text) = load_lines ci (lines text) []

unfoldable pub load : Backup → Backup
load s = record s { store = load_file s.ci s.file }

-- `if(store.empty()) load();`
unfoldable pub load_if_empty : Backup → Backup
load_if_empty s = if is_nil s.store then load s else s

unfoldable pub entry_text : Str → List Str → Str
entry_text k [] = []
entry_text k (v ∷ vs) = (k ++ b':' ∷ b' ' ∷ v ++ 10 ∷ []) ++ entry_text k vs

-- What `save` writes.
unfoldable pub file_text : StrVecMap → Str
file_text [] = []
file_text ((k, vs) ∷ m) = entry_text k vs ++ file_text m

-- `save()`: the state, and whether it did not throw.
unfoldable pub save : Backup → Backup × Bool
save s = if s.writable then (record s { file = some (file_text s.store) }, true) else (s, false)

-- `replace_store`: every value is pushed on the vector of its key in the new map.
unfoldable pub replace_entry : Bool → Str → List Str → StrVecMap → StrVecMap
replace_entry ci k [] m = m
replace_entry ci k (e ∷ es) m = replace_entry ci k es (update ci k (λ vs. vs ++ e ∷ []) m)

unfoldable pub replace_store : Bool → StrVecMap → StrVecMap → StrVecMap
replace_store ci [] m = m
replace_store ci ((k, es) ∷ old) m = replace_store ci old (replace_entry ci k es m)

abbrev pub bool_eq : Bool → Bool → Bool
bool_eq true b = b
bool_eq false true = false
bool_eq false false = true

-- `case_insensitive(ci)`
unfoldable pub set_case : Bool → Backup → Backup
set_case ci s =
    if bool_eq s.ci ci then s else record s { store = replace_store ci s.store []; ci = ci }

unfoldable pub reload : Backup → Backup
reload s = load s

-- `BackupStore(file)`: a new store on a file, and whether the constructor did not throw.
unfoldable pub open_store : Option Str → Bool → Backup × Bool
open_store file writable =
    save (reload (record { store = []; ci = false; file = file; writable = writable }))

abbrev keys_of : StrVecMap → List Str
keys_of [] = []
keys_of ((k, vs) ∷ m) = set_insert k (keys_of m)

-- The keys, in the order of `std::set<str>`.
unfoldable pub get_keys : Backup → List Str × Backup
get_keys s = let s' = load_if_empty s in (keys_of s'.store, s')

unfoldable pub has : Str → Backup → Bool × Backup
has k s = let s' = load_if_empty s in (contains s'.ci k s'.store, s')

-- `store[k]` alone: a missing key is made with an empty vector.
unfoldable pub touch : Str → Backup → Backup
touch k s = record s { store = update s.ci k (λ vs. vs) s.store }

-- `siz` has 64 bits.
unfoldable pub size_for : ℕ → ℕ
size_for n = (n + 1) % 2 ^ 64

abbrev pub elem_or : Str → Option Str → Str
elem_or dflt none = dflt
elem_or dflt (some v) = v

-- `get_at(k, n, dflt)`. Reading past the end, which the wrap of `n + 1` leaves open, is undefined in
-- the source; here it reads the default.
unfoldable pub get_at : Str → ℕ → Str → Backup → Str × Backup
get_at k n dflt s =
    let s' = touch k (load_if_empty s) in
    let vs = at s'.ci k s'.store in
    (if ltb (length vs) (size_for n) then dflt else elem_or dflt (get_elem? vs n), s')

unfoldable pub get_vec : Str → Backup → List Str × Backup
get_vec k s = let s' = touch k (load_if_empty s) in (at s'.ci k s'.store, s')

unfoldable pub clear : Backup → Backup × Bool
clear s = save (record s { store = [] })

-- A change of the vector of `k`, and the save.
unfoldable pub change : Str → (List Str → List Str) → Backup → Backup × Bool
change k f s = let s' = load_if_empty s in save (record s' { store = update s'.ci k f s'.store })

unfoldable pub clear_key : Str → Backup → Backup × Bool
clear_key k s = change k (λ vs. []) s

unfoldable pub add : Str → Str → Backup → Backup × Bool
add k v s = change k (λ vs. vs ++ v ∷ []) s

-- `v.resize(n + 1)` if it is shorter, then `v[n] = x`. Writing past the end is undefined in the
-- source; here it changes nothing.
unfoldable pub set_elem : ℕ → Str → List Str → List Str
set_elem n v vs =
    let size = size_for n in
    set (if ltb (length vs) size then vs ++ replicate (size - length vs) [] else vs) n v

unfoldable pub set_at : Str → ℕ → Str → Backup → Backup × Bool
set_at k n v s = change k (set_elem n v) s

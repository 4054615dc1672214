-- ===== src/BotDb.antt =====
-- src/botdb.cpp and src/include/skivvy/botdb.h: the database of a plugin, a map of string vectors
-- with a file for each key, used in transactions. A transaction holds the mutex from its constructor to
-- its destructor, so the transactions of a database follow one another. A file is its text, or
-- `none` where it cannot be opened to read; whether one can be opened to write is a field.
pub mod Commit
pub mod Transactions
mod Tests
use skivvy.Base.{
  ℕ, ◌+◌, ◌-◌, Bool, true, false, Option, none, some, List, [], ◌∷◌, ◌++◌, if◌then◌else◌, Str,
  str_eq, take, length, set, replicate,
}
use skivvy.Store.{StrVecMap, update, at, lex, lines}
use skivvy.Store.Backup.{size_for}

pub record BotDb : Type 0 where
  pub vectors : StrVecMap
  pub changed_keys : List Str
  pub files : Str → Option Str
  pub writable : Str → Bool

-- `BotDbImpl(bot, plugin_id)` over the files of that plugin's directory
unfoldable pub new_db : (Str → Option Str) → (Str → Bool) → BotDb
new_db files writable = record {
  vectors = [];
  changed_keys = [];
  files = files;
  writable = writable;
}

-- `str_set::insert`
unfoldable pub insert_key : Str → List Str → List Str
insert_key k [] = k ∷ []
insert_key k (j ∷ ks) =
    let rest = insert_key k ks in
    if lex k j then k ∷ j ∷ ks else if lex j k then j ∷ rest else j ∷ ks

-- A change of `data[key]`; the key counts as changed.
unfoldable pub edit : Str → (List Str → List Str) → BotDb → BotDb
edit key f s = record s {
  vectors = update false key f s.vectors;
  changed_keys = insert_key key s.changed_keys;
}

-- `v.resize(n)`
unfoldable pub resize : ℕ → List Str → List Str
resize n v = take n v ++ replicate (n - length v) []

unfoldable pub set_value : Str → Str → ℕ → BotDb → BotDb
set_value key val idx s = edit key (λ v. set (resize (size_for idx) v) idx val) s

unfoldable pub add_value : Str → Str → BotDb → BotDb
add_value key val s = edit key (λ v. v ++ val ∷ []) s

-- `get(key)`: the vector, which is made if it is missing.
unfoldable pub get_ref : Str → BotDb → List Str × BotDb
get_ref key s = (at false key s.vectors, record s { vectors = update false key (λ v. v) s.vectors })

abbrev front_or : Str → List Str → Str
front_or dflt [] = dflt
front_or dflt (v ∷ vs) = v

unfoldable pub get_value : Str → Str → BotDb → Str × BotDb
get_value key dflt s = let (v, s') = get_ref key s in (front_or dflt v, s')

unfoldable pub get_all : Str → BotDb → List Str × BotDb
get_all key s = get_ref key s

abbrev file_lines : Option Str → List Str
file_lines none = []
file_lines (some text) = lines text

unfoldable pub load_key : Str → BotDb → BotDb
load_key key s = record s { vectors = update false key (λ v. file_lines (s.files key)) s.vectors }

-- `for(str line: data[key]) ofs << line << '\n';`
unfoldable pub vector_text : List Str → Str
vector_text [] = []
vector_text (v ∷ vs) = v ++ 10 ∷ vector_text vs

unfoldable pub save_key : Str → BotDb → BotDb
save_key key s =
    if s.writable key
    then record s {
      files = λ k. if str_eq k key then some (vector_text (at false key s.vectors)) else s.files k;
    }
    else s

unfoldable pub load_keys : List Str → BotDb → BotDb
load_keys [] s = s
load_keys (key ∷ keys) s = load_keys keys (load_key key s)

unfoldable pub load_db : BotDb → BotDb
load_db s = record (load_keys s.changed_keys s) { changed_keys = [] }

unfoldable pub save_keys : List Str → BotDb → BotDb
save_keys [] s = s
save_keys (key ∷ keys) s = save_keys keys (save_key key s)

unfoldable pub save_db : BotDb → BotDb
save_db s = record (save_keys s.changed_keys s) { changed_keys = [] }

-- The constructor of `Transaction`, and its destructor, where `rollback` may be set.
unfoldable pub begin_transaction : BotDb → BotDb
begin_transaction s = load_db s

unfoldable pub end_transaction : Bool → BotDb → BotDb
end_transaction rollback s = if rollback then load_db s else save_db s

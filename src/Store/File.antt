-- ===== src/Store/File.antt =====
-- `FileStore`, src/include/skivvy/store.h: every read goes through the file, and every change writes
-- it anew. `sgl` is that of the library `hol`. The class leaves functions of `Store` undefined, so that
-- a class derived from it has to say if keys are case insensitive: `ci`.
pub mod Lines
pub mod Overwrite
mod Tests
use skivvy.Base.{
  ℕ, zero, suc, ◌+◌, Bool, true, false, not, ◌&&◌, ◌||◌, Option, none, some, List, [], ◌∷◌, ◌++◌,
  ltb, if◌then◌else◌, Str, str_eq, length, get_elem?,
}
use skivvy.Hol.{Hol}
use skivvy.Stream.{Stream, good, skip_ws}
use skivvy.Store.{ci_fix, set_insert}
use skivvy.Store.Backup.{entry_text, size_for, elem_or, set_elem}

pub record FileStore : Type 0 where
  -- the text of the file, or `none` where it cannot be opened to read
  pub file : Option Str
  pub ci : Bool
  pub writable : Bool

abbrev pub same_fixed : Bool → Str → Str → Bool
same_fixed ci a b = str_eq (ci_fix ci a) (ci_fix ci b)

abbrev pub value_under : Bool → Str → Option (Str × Str) → List Str
value_under ci key none = []
value_under ci key (some (k, v)) = if same_fixed ci k key then v ∷ [] else []

abbrev pub lines_text : List Str → Str
lines_text [] = []
lines_text (line ∷ ls) = line ++ 10 ∷ lines_text ls

module _ (h : Hol) where
  -- `while(sgl(is, line))`: the lines
  unfoldable pub lines_loop : ℕ → Str → Stream → List Str
  lines_loop zero line is = []
  lines_loop (suc fuel) line is =
      let (line', is') = h.sgl 10 line is in
      let rest = lines_loop fuel line' is' in if is'.fail then [] else line' ∷ rest

  -- Of a text of `n` bytes `n + 1` rounds are enough.
  unfoldable pub file_lines : Option Str → List Str
  file_lines none = []
  file_lines (some text) = lines_loop (suc (length text)) [] (good text)

  -- `sgl(sgl(ss, k, ':') >> std::ws, v)`
  unfoldable pub key_and_value : Str → Option (Str × Str)
  key_and_value line =
      let (k, is1) = h.sgl b':' [] (good line) in
      let (v, is2) = h.sgl 10 [] (skip_ws is1) in if is2.fail then none else some (k, v)

  unfoldable pub values_under : Bool → Str → List Str → List Str
  values_under ci key [] = []
  values_under ci key (line ∷ ls) =
      value_under ci key (key_and_value line) ++ values_under ci key ls

  -- `load(key)`
  unfoldable pub load : Str → FileStore → List Str
  load key s = values_under s.ci key (file_lines s.file)

  -- What `sgl(siss(line), line, ':')` leaves in `line`, and whether it is true.
  unfoldable pub key_part : Str → Str × Bool
  key_part line = let (k, is) = h.sgl b':' line (good line) in (k, not is.fail)

  -- What `save` keeps of the old lines.
  unfoldable pub kept_lines : Bool → Str → List Str → Str
  kept_lines ci key [] = []
  kept_lines ci key (line ∷ ls) =
      let (k, ok) = key_part line in
      let rest = kept_lines ci key ls in
      if ok && not (same_fixed ci k key) then k ++ 10 ∷ rest else rest

  -- `save(key, store)`
  unfoldable pub save : Str → List Str → FileStore → FileStore
  save key vs s =
      let old = kept_lines s.ci key (file_lines s.file) in
      if s.writable
      then record s { file = some (lines_text (file_lines (some old)) ++ entry_text key vs) }
      else s

  unfoldable pub any_key : Bool → Str → List Str → Bool
  any_key ci key [] = false
  any_key ci key (line ∷ ls) =
      let (k, ok) = key_part line in (ok && same_fixed ci k key) || any_key ci key ls

  unfoldable pub has : Str → FileStore → Bool
  has key s = any_key s.ci key (file_lines s.file)

  -- The key parts that pass a test, in the order of `std::set`.
  unfoldable pub keys_where : (Str → Bool) → List Str → List Str
  keys_where p [] = []
  keys_where p (line ∷ ls) =
      let (k, ok) = key_part line in
      let rest = keys_where p ls in if ok && p k then set_insert k rest else rest

  unfoldable pub get_keys : FileStore → List Str
  get_keys s = keys_where (λ k. true) (file_lines s.file)

  -- `sreg_match(reg, k)` is a function of the library of regular expressions.
  unfoldable pub get_keys_if_sreg : (Str → Str → Bool) → Str → FileStore → List Str
  get_keys_if_sreg sreg_match reg s = keys_where (sreg_match reg) (file_lines s.file)

  unfoldable pub get_vec : Str → FileStore → List Str
  get_vec key s = load key s

  -- Reading past the end, which the wrap of `n + 1` leaves open, is undefined in the source; here it
  -- reads the default.
  unfoldable pub get_at : Str → ℕ → Str → FileStore → Str
  get_at key n dflt s =
      let vs = load key s in
      if ltb (length vs) (size_for n) then dflt else elem_or dflt (get_elem? vs n)

  unfoldable pub clear_key : Str → FileStore → FileStore
  clear_key key s = save key [] s

  unfoldable pub add : Str → Str → FileStore → FileStore
  add key v s = save key (load key s ++ v ∷ []) s

  unfoldable pub set_at : Str → ℕ → Str → FileStore → FileStore
  set_at key n v s = save key (set_elem n v (load key s)) s

unfoldable pub clear : FileStore → FileStore
clear s = if s.writable then record s { file = some [] } else s

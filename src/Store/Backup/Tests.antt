-- ===== src/Store/Backup/Tests.antt =====
-- Runs of a `BackupStore`, and the theorems at concrete stores.
use skivvy.Base.{
  true, false, ◌≡◌, refl, none, some, List, [], ◌∷◌, arith, if◌then◌else◌, Str, codes, get_elem?,
}
use skivvy.Store.{update, same_key, ci_cmp, ci_fix, lex, lines}
use skivvy.Store.Backup.{
  Backup, load_line, load_lines, load_file, reload, open_store, get_vec, set_at,
}
use skivvy.Store.Backup.Elements.{written}
use skivvy.Store.Backup.Change.{get_vec-set_at}
use skivvy.Store.Backup.Persist.{Call, adds, sets, clears_key, gets, run, get_vec-reload}

abbrev text : Str
text = codes "nick: skivvy\nchan: #a\nchan: #b\n"

load_file-run :
    load_file false (some text)
    ≡ (codes "chan", codes "#a" ∷ codes "#b" ∷ []) ∷ (codes "nick", codes "skivvy" ∷ []) ∷ []
unfolding load_file load_lines load_line lines update ci_cmp ci_fix lex
load_file-run = refl

abbrev small : Backup
small = record {
  store = (codes "A", codes "x" ∷ []) ∷ (codes "b", codes "y" ∷ codes "z" ∷ []) ∷ [];
  ci = true;
  file = none;
  writable = true;
}

get_vec-set_at_example :
    get_elem? (get_vec (codes "b") (set_at (codes "B") 3 (codes "w") small).0).0 2 ≡ (
      if same_key true (codes "B") (codes "b")
      then written 3 (codes "w") (get_vec (codes "B") small).0 2
      else get_elem? (get_vec (codes "b") small).0 2)
unfolding ci_cmp ci_fix lex
get_vec-set_at_example =
    get_vec-set_at (codes "b") (codes "B") 3 (codes "w") small 2 ((refl, tt), (tt, tt))
      (omega arith)

abbrev calls : List Call
calls =
    adds (codes "chan") (codes "#c")
    ∷ sets (codes "nick") 1 (codes "other")
    ∷ gets (codes "none") 0 []
    ∷ clears_key (codes "chan")
    ∷ []

get_vec-reload_example :
    (get_vec (codes "nick") (reload (run calls (open_store (some text) true).0))).0
    ≡ (get_vec (codes "nick") (run calls (open_store (some text) true).0)).0
get_vec-reload_example = get_vec-reload (some text) calls (codes "nick") (ground arith)

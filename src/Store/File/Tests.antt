-- ===== src/Store/File/Tests.antt =====
-- Tests of `FileStore`.
use skivvy.Base.{◌≡◌, refl, true, false, if◌then◌else◌, str_eq, some, [], ◌∷◌, codes, arith}
use skivvy.Hol.Model.{hol, hol-IsHol}
use skivvy.Store.File.{
  FileStore, lines_loop, file_lines, key_and_value, same_fixed, values_under, load, key_part,
  kept_lines, save, has, get_vec, get_at, clear_key, add, set_at, clear, any_key, keys_where,
  get_keys, get_keys_if_sreg,
}
use skivvy.Store.File.Overwrite.{get_vec-save}
use skivvy.Store.{ci_fix, lex, set_insert}
use skivvy.Store.Backup.{entry_text, size_for, set_elem}
use skivvy.Stream.{getline, skip_ws}

abbrev quotes : FileStore
quotes = record {
  file = some (codes "gir: doom\ngir: tacos\nzim: I am normal\n");
  ci = true;
  writable = true;
}

get_vec-save_example :
    get_vec hol (codes "gir") (save hol (codes "ZIM") (codes "victory" ∷ []) quotes)
    ≡ (if same_fixed true (codes "ZIM") (codes "gir") then codes "victory" ∷ [] else [])
get_vec-save_example =
    get_vec-save hol-IsHol (codes "gir") (codes "ZIM") (codes "victory" ∷ []) quotes refl
      (omega arith, omega arith) ((refl, omega arith), tt)

-- The two values of `gir` are read before the save and are gone behind it.
lost_test :
    (get_vec hol (codes "gir") quotes ≡ codes "doom" ∷ codes "tacos" ∷ [])
    × (get_vec hol (codes "gir") (add hol (codes "zim") (codes "ok") quotes) ≡ [])
    × (get_vec hol (codes "zim") (add hol (codes "zim") (codes "ok") quotes)
        ≡ codes "I am normal" ∷ codes "ok" ∷ [])
unfolding get_vec load file_lines lines_loop key_and_value values_under ci_fix add save kept_lines
    key_part entry_text hol getline skip_ws
lost_test = (refl, refl, refl)

at_test :
    (get_at hol (codes "gir") 1 (codes "-") quotes ≡ codes "tacos")
    × (get_at hol (codes "gir") 2 (codes "-") quotes ≡ codes "-")
    × (get_at hol (codes "gir") 1 (codes "-") (set_at hol (codes "gir") 1 (codes "pig") quotes)
        ≡ codes "pig")
unfolding get_at load file_lines lines_loop key_and_value values_under ci_fix set_at save kept_lines
    key_part entry_text hol getline skip_ws size_for set_elem
at_test = (refl, refl, refl)

clear_test :
    (has hol (codes "zim") quotes ≡ true)
    × (has hol (codes "zim") (clear_key hol (codes "zim") quotes) ≡ false)
    × (has hol (codes "gir") (clear_key hol (codes "zim") quotes) ≡ true)
    × ((clear quotes).file ≡ some [])
unfolding has any_key file_lines lines_loop ci_fix clear_key save kept_lines key_part entry_text hol
    getline clear
clear_test = (refl, refl, refl, refl)

keys_test :
    (get_keys hol quotes ≡ codes "gir" ∷ codes "zim" ∷ [])
    × (get_keys_if_sreg hol str_eq (codes "zim") quotes ≡ codes "zim" ∷ [])
unfolding get_keys get_keys_if_sreg keys_where set_insert lex file_lines lines_loop key_part hol
    getline
keys_test = (refl, refl)

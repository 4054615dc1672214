-- ===== src/Store/Backup/Persist.antt =====
-- What a `BackupStore` returns is what its file holds: reading the file again changes no vector.
use skivvy.Base.{
  ℕ, zero, suc, ◌-◌, Bool, true, false, ◌≡◌, refl, sym, ◌∙◌, inl, inr, Option, List, [], ◌∷◌, ◌++◌,
  arith, ltb, if◌then◌else◌, Str, length, set, replicate, All, All-append, Lacks, Bool-cases,
  is_nil,
}
use skivvy.Store.{update, at}
use skivvy.Store.Map.{update-IsSorted}
use skivvy.Store.Backup.{
  Backup, load_file, load, load_if_empty, save, reload, open_store, has, touch, get_at, get_vec,
  clear, change, clear_key, add, set_elem, set_at, size_for,
}
use skivvy.Store.Backup.Replace.{at-load_file_text}
use skivvy.Store.Backup.Text.{IsKey, IsWritable, update-IsWritable, load_file_keeps}
use skivvy.Store.Backup.Change.{InOrder, loaded, touch-same, get_vec-loaded}

-- The calls of the class; the readers are calls, since they load the file and make keys.
pub data Call : Type 0 where
  adds : Str → Str → Call
  sets : Str → ℕ → Str → Call
  clears : Call
  clears_key : Str → Call
  gets : Str → ℕ → Str → Call
  gets_vec : Str → Call
  asks : Str → Call
  reloads : Call

unfoldable pub step : Call → Backup → Backup
step (adds k v) s = (add k v s).0
step (sets k n v) s = (set_at k n v s).0
step clears s = (clear s).0
step (clears_key k) s = (clear_key k s).0
step (gets k n dflt) s = (get_at k n dflt s).1
step (gets_vec k) s = (get_vec k s).1
step (asks k) s = (has k s).1
step reloads s = reload s

unfoldable pub run : List Call → Backup → Backup
run [] s = s
run (c ∷ cs) s = run cs (step c s)

-- The keys of the call hold no colon and no line feed, its values no line feed.
abbrev pub IsClean : Call → Type 0
IsClean (adds k v) = IsKey k × Lacks 10 v
IsClean (sets k n v) = IsKey k × Lacks 10 v
IsClean clears = Unit
IsClean (clears_key k) = IsKey k
IsClean (gets k n dflt) = IsKey k
IsClean (gets_vec k) = IsKey k
IsClean (asks k) = Unit
IsClean reloads = Unit

-- The map and the file agree.
pub record IsSynced (s : Backup) : Type 0 where
  pub order : InOrder s
  pub text : IsWritable s.store
  pub writable : s.writable ≡ true
  pub synced : (j : Str) → at s.ci j (load_file s.ci s.file) ≡ at s.ci j s.store

load-IsSynced : (s : Backup) → s.writable ≡ true → IsSynced (load s)
unfolding load
load-IsSynced s w =
    let (o, t) = load_file_keeps s.ci s.file in
    record { order = o; text = t; writable = w; synced = λ j. refl }

load_if_empty-IsSynced : (s : Backup) → IsSynced s → IsSynced (load_if_empty s)
unfolding load_if_empty
load_if_empty-IsSynced s v = elim (Bool-cases (is_nil s.store)) [
  | inl e ↦ rw e (load-IsSynced s v.writable)
  | inr e ↦ rw e v
]

save-IsSynced :
    (s : Backup) → InOrder s → IsWritable s.store → s.writable ≡ true → IsSynced (save s).0
unfolding save
save-IsSynced s o t w = rw w (record {
  order = o;
  text = t;
  writable = refl;
  synced = λ j. at-load_file_text s.ci j s.store o t;
})

change-IsSynced :
    (k : Str) (f : List Str → List Str) (s : Backup)
    → IsKey k
    → ((vs : List Str) → All (Lacks 10) vs → All (Lacks 10) (f vs))
    → IsSynced s
    → IsSynced (change k f s).0
unfolding change
change-IsSynced k f s hk hf v =
    let s' = load_if_empty s in
    let v' : IsSynced s' = load_if_empty-IsSynced s v in
    save-IsSynced (record s' { store = update s'.ci k f s'.store })
      (update-IsSorted s'.ci k f s'.store v'.order)
      (update-IsWritable s'.ci k f s'.store hk hf v'.text) v'.writable

touch-IsSynced : (k : Str) (s : Backup) → IsKey k → IsSynced s → IsSynced (touch k s)
unfolding touch
touch-IsSynced k s hk v = record {
  order = update-IsSorted s.ci k (λ vs. vs) s.store v.order;
  text = update-IsWritable s.ci k (λ vs. vs) s.store hk (λ vs h. h) v.text;
  writable = v.writable;
  synced = λ j. v.synced j ∙ sym (touch-same j k s v.order);
}

snoc-Lacks :
    (v : Str) (vs : List Str) → Lacks 10 v → All (Lacks 10) vs → All (Lacks 10) (vs ++ v ∷ [])
snoc-Lacks v vs h hs = All-append _ vs (v ∷ []) hs (h, tt)

replicate-Lacks : (m : ℕ) → All (Lacks 10) (replicate m [])
replicate-Lacks zero = tt
replicate-Lacks (suc m) = (tt, replicate-Lacks m)

set-Lacks :
    (n : ℕ) (v : Str) (vs : List Str) → Lacks 10 v → All (Lacks 10) vs → All (Lacks 10) (set vs n v)
set-Lacks n v [] h hs = tt
set-Lacks zero v (w ∷ vs) h (g, gs) = (h, gs)
set-Lacks (suc n) v (w ∷ vs) h (g, gs) = (g, set-Lacks n v vs h gs)

set_elem-Lacks :
    (n : ℕ) (v : Str) (vs : List Str)
    → Lacks 10 v
    → All (Lacks 10) vs
    → All (Lacks 10) (set_elem n v vs)
unfolding set_elem
set_elem-Lacks n v vs h hs = set-Lacks n v _ h (longer (ltb (length vs) (size_for n)))
  where
    longer :
        (b : Bool) → All (Lacks 10) (if b then vs ++ replicate (size_for n - length vs) [] else vs)
    longer true = All-append _ vs _ hs (replicate-Lacks _)
    longer false = hs

-- Every call keeps the map and the file in agreement.
pub step-IsSynced : (c : Call) (s : Backup) → IsClean c → IsSynced s → IsSynced (step c s)
unfolding step
step-IsSynced (adds k v) s (hk, hv) i =
    unfold add in change-IsSynced k (λ vs. vs ++ v ∷ []) s hk (λ vs. snoc-Lacks v vs hv) i
step-IsSynced (sets k n v) s (hk, hv) i =
    unfold set_at in change-IsSynced k (set_elem n v) s hk (λ vs. set_elem-Lacks n v vs hv) i
step-IsSynced clears s h i =
    unfold clear in save-IsSynced (record s { store = [] }) tt tt i.writable
step-IsSynced (clears_key k) s h i =
    unfold clear_key in change-IsSynced k (λ vs. []) s h (λ vs g. tt) i
step-IsSynced (gets k n dflt) s h i =
    unfold get_at in touch-IsSynced k (load_if_empty s) h (load_if_empty-IsSynced s i)
step-IsSynced (gets_vec k) s h i =
    unfold get_vec in touch-IsSynced k (load_if_empty s) h (load_if_empty-IsSynced s i)
step-IsSynced (asks k) s h i = unfold has in load_if_empty-IsSynced s i
step-IsSynced reloads s h i = unfold reload in load-IsSynced s i.writable

run-IsSynced : (cs : List Call) (s : Backup) → All IsClean cs → IsSynced s → IsSynced (run cs s)
unfolding run
run-IsSynced [] s h i = i
run-IsSynced (c ∷ cs) s (h, hs) i = run-IsSynced cs (step c s) hs (step-IsSynced c s h i)

open_store-IsSynced : (file : Option Str) → IsSynced (open_store file true).0
unfolding open_store reload load
open_store-IsSynced file =
    let (o, t) = load_file_keeps false file in
    save-IsSynced
      (record { store = load_file false file; ci = false; file = file; writable = true }) o t refl

loaded-IsSynced : (j : Str) (s : Backup) → IsSynced s → loaded j s ≡ at s.ci j s.store
unfolding loaded load_if_empty load
loaded-IsSynced j s i = ground (arith, i.synced j)

loaded-load : (j : Str) (s : Backup) → loaded j (load s) ≡ at s.ci j (load_file s.ci s.file)
unfolding loaded load_if_empty load
loaded-load j s = ground arith

-- A store opened on any file that can be written, and used by any sequence of calls of `add`, `set_at`,
-- both `clear`, `get_at`, `get_vec`, `has` and `reload`, whose keys hold no colon and no line feed and
-- whose values hold no line feed, returns for every key the same vector after its file is read again.
-- `case_insensitive` is not among the calls.
pub get_vec-reload :
    (file : Option Str) (cs : List Call) (j : Str)
    → All IsClean cs
    → (get_vec j (reload (run cs (open_store file true).0))).0
      ≡ (get_vec j (run cs (open_store file true).0)).0
get_vec-reload file cs j h =
    let s = run cs (open_store file true).0 in
    let i : IsSynced s = run-IsSynced cs (open_store file true).0 h (open_store-IsSynced file) in
    unfold reload in
    (get_vec-loaded j (load s) (load-IsSynced s i.writable).order
      ∙ loaded-load j s
      ∙ i.synced j
      ∙ sym (loaded-IsSynced j s i)
      ∙ sym (get_vec-loaded j s i.order))

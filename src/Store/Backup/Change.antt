-- ===== src/Store/Backup/Change.antt =====
-- What the changes of a `BackupStore` do to the vectors that its readers return.
use skivvy.Base.{
  ℕ, ◌+◌, ◌^◌, ◌<◌, Bool, true, false, ◌≡◌, refl, sym, ap, subst, ◌∙◌, inl, inr, List, [], ◌∷◌,
  ◌++◌, arith, if◌then◌else◌, Str, get_elem?, Bool-cases, is_nil,
}
use skivvy.Store.{StrVecMap, update, at, contains, same_key}
use skivvy.Store.Map.{IsSorted, update-IsSorted, at-update, contains-update, at-same}
use skivvy.Store.Backup.{
  Backup, load, load_if_empty, save, has, touch, get_at, get_vec, change, clear_key, add, set_elem,
  set_at,
}
use skivvy.Store.Backup.Elements.{written, get_elem?-set_elem}
use skivvy.Store.Backup.Text.{load_file_keeps}

-- The map of the store is in the order of its keys.
abbrev pub InOrder : Backup → Type 0
InOrder s = IsSorted s.ci s.store

-- The vector of `k` once the store is loaded.
unfoldable pub loaded : Str → Backup → List Str
loaded k s = at s.ci k (load_if_empty s).store

ci-load_if_empty : (s : Backup) → (load_if_empty s).ci ≡ s.ci
unfolding load_if_empty load
ci-load_if_empty s = ground arith

pub load_if_empty-InOrder : (s : Backup) → InOrder s → InOrder (load_if_empty s)
unfolding load_if_empty load
load_if_empty-InOrder s h = elim (Bool-cases (is_nil s.store)) [
  | inl e ↦ rw e (load_file_keeps s.ci s.file).0
  | inr e ↦ rw e h
]

-- A map with an updated key is not empty.
is_nil-update :
    (ci : Bool) (k : Str) (f : List Str → List Str) (m : StrVecMap)
    → is_nil (update ci k f m) ≡ false
unfolding update
is_nil-update ci k f [] = refl
is_nil-update ci k f ((j, vs) ∷ m) = ground arith

-- A state whose map is not empty is not loaded again.
loaded_full : (j : Str) (s : Backup) → is_nil s.store ≡ false → loaded j s ≡ at s.ci j s.store
unfolding loaded load_if_empty
loaded_full j s h = rw h refl

store-change :
    (k : Str) (f : List Str → List Str) (s : Backup)
    → ((change k f s).0.store ≡ update s.ci k f (load_if_empty s).store)
      × ((change k f s).0.ci ≡ s.ci)
unfolding change save
store-change k f s = ground (arith, ci-load_if_empty s)

-- After a change of `k` every key that is `k` has the changed vector, and every other its old one.
pub loaded-change :
    (j k : Str) (f : List Str → List Str) (s : Backup)
    → InOrder s
    → loaded j (change k f s).0 ≡ (if same_key s.ci k j then f (loaded k s) else loaded j s)
unfolding loaded
loaded-change j k f s h =
    let (st, c) = store-change k f s in
    let full : is_nil (change k f s).0.store ≡ false =
      ap is_nil st ∙ is_nil-update s.ci k f (load_if_empty s).store in
    loaded_full j (change k f s).0 full
    ∙ ap (λ x. at x j (change k f s).0.store) c
    ∙ ap (at s.ci j) st
    ∙ at-update s.ci j k f (load_if_empty s).store (
        subst (λ c. IsSorted c (load_if_empty s).store) (ci-load_if_empty s)
          (load_if_empty-InOrder s h))

pub touch-same :
    (j k : Str) (s : Backup) → InOrder s → at s.ci j (touch k s).store ≡ at s.ci j s.store
unfolding touch
touch-same j k s h =
    ground (arith, at-update s.ci j k (λ vs. vs) s.store h, at-same s.ci j k s.store)

-- Reading a key, which makes it, changes no vector.
pub loaded-touch :
    (j k : Str) (s : Backup) → InOrder s → loaded j (touch k (load_if_empty s)) ≡ loaded j s
loaded-touch j k s h =
    let s' = load_if_empty s in
    loaded_full j (touch k s') (unfold touch in is_nil-update s'.ci k (λ vs. vs) s'.store)
    ∙ touch-ci
    ∙ touch-same j k s' (load_if_empty-InOrder s h)
    ∙ sym (unfold loaded in ap (λ c. at c j s'.store) (sym (ci-load_if_empty s)))
  where
    touch-ci :
        at (touch k (load_if_empty s)).ci j (touch k (load_if_empty s)).store
        ≡ at (load_if_empty s).ci j (touch k (load_if_empty s)).store
    touch-ci = unfold touch in refl

-- `get_vec` returns the vector of the loaded store.
pub get_vec-loaded : (k : Str) (s : Backup) → InOrder s → (get_vec k s).0 ≡ loaded k s
unfolding get_vec
get_vec-loaded k s h =
    let s' = load_if_empty s in
    unfold touch in
    (touch_at s' (load_if_empty-InOrder s h))
    ∙ unfold loaded in ap (λ c. at c k s'.store) (ci-load_if_empty s)
  where
    touch_at : (t : Backup) → InOrder t → at t.ci k (touch k t).store ≡ at t.ci k t.store
    touch_at t i = touch-same k k t i

change-InOrder :
    (k : Str) (f : List Str → List Str) (s : Backup) → InOrder s → InOrder (change k f s).0
change-InOrder k f s h =
    let (st, c) = store-change k f s in
    let i : IsSorted s.ci (load_if_empty s).store =
      subst (λ c. IsSorted c (load_if_empty s).store) (ci-load_if_empty s)
        (load_if_empty-InOrder s h) in
    subst (λ x. IsSorted x (change k f s).0.store) (sym c)
      (subst (IsSorted s.ci) (sym st) (update-IsSorted s.ci k f (load_if_empty s).store i))

get_vec-change :
    (j k : Str) (f : List Str → List Str) (s : Backup)
    → InOrder s
    → (get_vec j (change k f s).0).0
      ≡ (if same_key s.ci k j then f (get_vec k s).0 else (get_vec j s).0)
get_vec-change j k f s h =
    rw
      (
        get_vec-loaded j (change k f s).0 (change-InOrder k f s h),
        get_vec-loaded k s h,
        get_vec-loaded j s h,
      )
      (loaded-change j k f s h)

-- Where the map is in the order of its keys, `add` puts the value behind the vector of its key,
-- under every key that compares equal, and leaves the vectors of the other keys alone.
pub get_vec-add :
    (j k v : Str) (s : Backup)
    → InOrder s
    → (get_vec j (add k v s).0).0
      ≡ (if same_key s.ci k j then (get_vec k s).0 ++ v ∷ [] else (get_vec j s).0)
unfolding add
get_vec-add j k v s h = get_vec-change j k (λ vs. vs ++ v ∷ []) s h

-- Where the map is in the order of its keys, `clear` of a key empties the vector of that key and
-- leaves the vectors of the other keys alone.
pub get_vec-clear_key :
    (j k : Str) (s : Backup)
    → InOrder s
    → (get_vec j (clear_key k s).0).0 ≡ (if same_key s.ci k j then [] else (get_vec j s).0)
unfolding clear_key
get_vec-clear_key j k s h = get_vec-change j k (λ vs. []) s h

-- Where the map is in the order of its keys and `n + 1` fits 64 bits, `set_at` makes the value the
-- `n`-th of the vector of its key, fills up with empty strings before it, keeps the other elements,
-- and leaves the vectors of the other keys alone.
pub get_vec-set_at :
    (j k : Str) (n : ℕ) (v : Str) (s : Backup) (i : ℕ)
    → InOrder s
    → n + 1 < 2 ^ 64
    → get_elem? (get_vec j (set_at k n v s).0).0 i
      ≡ (if same_key s.ci k j then written n v (get_vec k s).0 i else get_elem? (get_vec j s).0 i)
unfolding set_at
get_vec-set_at j k n v s i h b =
    ap (λ vs. get_elem? vs i) (get_vec-change j k (set_elem n v) s h)
    ∙ ground (arith, get_elem?-set_elem n i v (get_vec k s).0 b)

-- Where the map is in the order of its keys, a read of any key changes the vector of none.
pub get_vec-get_at :
    (j k : Str) (n : ℕ) (dflt : Str) (s : Backup)
    → InOrder s
    → (get_vec j (get_at k n dflt s).1).0 ≡ (get_vec j s).0
unfolding get_at
get_vec-get_at j k n dflt s h =
    rw
      (
        get_vec-loaded j (touch k (load_if_empty s))
            (touch-InOrder k (load_if_empty s) (load_if_empty-InOrder s h)),
        get_vec-loaded j s h,
      )
      (loaded-touch j k s h)
  where
    touch-InOrder : (k : Str) (t : Backup) → InOrder t → InOrder (touch k t)
    touch-InOrder k t i = unfold touch in update-IsSorted t.ci k (λ vs. vs) t.store i

pub load_if_empty_full : (t : Backup) → is_nil t.store ≡ false → load_if_empty t ≡ t
unfolding load_if_empty
load_if_empty_full t h = rw h refl

-- After `get_at` of any key `has` finds that key, even if nothing was ever stored under it.
pub has-get_at :
    (k : Str) (n : ℕ) (dflt : Str) (s : Backup) → (has k (get_at k n dflt s).1).0 ≡ true
unfolding has get_at touch
has-get_at k n dflt s =
    let s' = load_if_empty s in
    let t : Backup = record s' { store = update s'.ci k (λ vs. vs) s'.store } in
    ap (λ (t : Backup). contains t.ci k t.store)
      (load_if_empty_full t (is_nil-update s'.ci k (λ vs. vs) s'.store))
    ∙ contains-update s'.ci k (λ vs. vs) s'.store

-- ===== src/Store/Backup/Elements.antt =====
-- What `set_at` does to the vector of its key.
use skivvy.Base.{
  ℕ, zero, suc, ◌+◌, ◌-◌, ◌^◌, ◌≤◌, ◌<◌, ◌==◌, ◌≡◌, refl, ap, inl, inr, Option, none, some, List,
  [], ◌∷◌, ◌++◌, arith, ltb, if◌then◌else◌, Str, length, get_elem?, set, replicate, length-append,
  Bool-cases,
}
use skivvy.Store.Backup.{size_for, set_elem}

-- What stands at an index behind a write at `n`: the value, the old elements, and empty strings
-- between the old end and `n`.
abbrev pub written : ℕ → Str → List Str → ℕ → Option Str
written n v vs i =
    if i == n
    then some v
    else if ltb i (length vs)
    then get_elem? vs i
    else if ltb i n
    then some []
    else none

get_elem?-replicate :
    (m i : ℕ) → get_elem? {A = Str} (replicate m []) i ≡ (if ltb i m then some [] else none)
get_elem?-replicate zero i = ground arith
get_elem?-replicate (suc m) zero = ground arith
get_elem?-replicate (suc m) (suc i) = ground (arith, get_elem?-replicate m i)

get_elem?-append :
    (vs ws : List Str) (i : ℕ)
    → get_elem? (vs ++ ws) i
      ≡ (if ltb i (length vs) then get_elem? vs i else get_elem? ws (i - length vs))
get_elem?-append [] ws i = ground arith
get_elem?-append (v ∷ vs) ws zero = ground arith
get_elem?-append (v ∷ vs) ws (suc i) = ground (arith, get_elem?-append vs ws i)

get_elem?-past : (vs : List Str) (i : ℕ) → length vs ≤ i → get_elem? vs i ≡ none
get_elem?-past [] i h = refl
get_elem?-past (v ∷ vs) zero h = absurd (omega arith)
get_elem?-past (v ∷ vs) (suc i) h = get_elem?-past vs i (omega arith)

get_elem?-set :
    (vs : List Str) (n i : ℕ) (v : Str)
    → n < length vs
    → get_elem? (set vs n v) i ≡ (if i == n then some v else get_elem? vs i)
get_elem?-set [] n i v h = absurd (omega arith)
get_elem?-set (w ∷ vs) zero zero v h = ground arith
get_elem?-set (w ∷ vs) zero (suc i) v h = ground arith
get_elem?-set (w ∷ vs) (suc n) zero v h = ground arith
get_elem?-set (w ∷ vs) (suc n) (suc i) v h = ground (arith, get_elem?-set vs n i v)

length-replicate : (m : ℕ) (a : Str) → length (replicate m a) ≡ m
length-replicate zero a = refl
length-replicate (suc m) a = ap suc (length-replicate m a)

size_for-eq : (n : ℕ) → n + 1 < 2 ^ 64 → size_for n ≡ n + 1
unfolding size_for
size_for-eq n h = omega arith

pub get_elem?-set_elem :
    (n i : ℕ) (v : Str) (vs : List Str)
    → n + 1 < 2 ^ 64
    → get_elem? (set_elem n v vs) i ≡ written n v vs i
unfolding set_elem
get_elem?-set_elem n i v vs h = elim (Bool-cases (ltb (length vs) (n + 1))) [
  | inl e ↦
      let more : List Str = replicate (n + 1 - length vs) [] in
      rw (size_for-eq n h, e)
        (ground (
          arith,
          get_elem?-set (vs ++ more) n i v,
          get_elem?-append vs more i,
          get_elem?-replicate (n + 1 - length vs) (i - length vs),
          length-append vs more,
          length-replicate (n + 1 - length vs) [],
        ))
  | inr e ↦ rw (size_for-eq n h, e) (ground (arith, get_elem?-set vs n i v, get_elem?-past vs i))
]

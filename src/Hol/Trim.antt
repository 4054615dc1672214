-- ===== src/Hol/Trim.antt =====
-- Lines that end in no space: trimming takes exactly the spaces behind them.
use skivvy.Base.{ℕ, false, ◌≡◌, refl, ap, sym, subst, [], ◌∷◌, ◌++◌, Str, is_space}
use skivvy.Hol.{Hol, IsHol, AllSpace}

-- The last byte is there, and is no space.
abbrev pub IsTrimmed : Str → Type 0
IsTrimmed [] = ⊥
IsTrimmed (c ∷ []) = is_space c ≡ false
IsTrimmed (c ∷ d ∷ s) = IsTrimmed (d ∷ s)

split_last :
    (c : ℕ) (s : Str)
    → IsTrimmed (c ∷ s)
    → (r : Str) × (d : ℕ) × (c ∷ s ≡ r ++ d ∷ []) × (is_space d ≡ false)
split_last c [] k = ([], c, refl, k)
split_last c (e ∷ s) k = let (r, d, p, q) = split_last e s k in (c ∷ r, d, ap (◌∷◌ c) p, q)

pub IsTrimmed-cons : (c : ℕ) (s : Str) → IsTrimmed s → IsTrimmed (c ∷ s)
IsTrimmed-cons c [] k = absurd k
IsTrimmed-cons c (d ∷ s) k = k

pub IsTrimmed-append : (s t : Str) → IsTrimmed t → IsTrimmed (s ++ t)
IsTrimmed-append [] t k = k
IsTrimmed-append (c ∷ s) [] k = absurd k
IsTrimmed-append (c ∷ []) (d ∷ t) k = k
IsTrimmed-append (c ∷ e ∷ s) (d ∷ t) k = IsTrimmed-append (e ∷ s) (d ∷ t) k

pub trim_right-append :
    {h : Hol} (l : IsHol h) (s w : Str) → IsTrimmed s → AllSpace w → h.trim_right (s ++ w) ≡ s
trim_right-append {h} l [] w k kw = absurd k
trim_right-append {h} l (c ∷ s) w k kw =
    let (r, d, p, q) = split_last c s k in
    subst (λ x. h.trim_right (x ++ w) ≡ x) (sym p) (l.trim_right_keeps r w d q kw)

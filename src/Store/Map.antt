-- ===== src/Store/Map.antt =====
-- The maps of the stores: an update changes the vector of its key alone, and keeps the order.
use skivvy.Base.{
  Bool, true, false, not, ◌&&◌, ◌≡◌, refl, sym, ap, ◌∙◌, inl, inr, List, [], ◌∷◌, arith,
  if◌then◌else◌, Str, Bool-cases,
}
use skivvy.Store.{lex, ci_fix, ci_cmp, same_key, StrVecMap, update, at, contains}
use skivvy.Store.Order.{lex_asym, lex_trans, same_key_iff}

module _ (ci : Bool) where
  -- Every key of the map is behind `k`.
  abbrev pub Above : Str → StrVecMap → Type 0
  Above k [] = Unit
  Above k ((j, vs) ∷ m) = (ci_cmp ci k j ≡ true) × Above k m

  abbrev pub IsSorted : StrVecMap → Type 0
  IsSorted [] = Unit
  IsSorted ((k, vs) ∷ m) = Above k m × IsSorted m

  cmp_trans : (a b c : Str) → ci_cmp ci a b ≡ true → ci_cmp ci b c ≡ true → ci_cmp ci a c ≡ true
  unfolding ci_cmp
  cmp_trans a b c h k = lex_trans (ci_fix ci a) (ci_fix ci b) (ci_fix ci c) h k

  pub cmp_asym : (a b : Str) → ci_cmp ci a b ≡ true → ci_cmp ci b a ≡ false
  unfolding ci_cmp
  cmp_asym a b h = lex_asym (ci_fix ci a) (ci_fix ci b) h

  -- What is compared of two equal keys compares alike.
  cmp_same : (a b c : Str) → same_key ci a b ≡ true → ci_cmp ci a c ≡ true → ci_cmp ci b c ≡ true
  unfolding ci_cmp
  cmp_same a b c h k = ap (λ x. lex x (ci_fix ci c)) (sym ((same_key_iff ci a b).0 h)) ∙ k

  Above-trans : (k j : Str) (m : StrVecMap) → ci_cmp ci k j ≡ true → Above j m → Above k m
  Above-trans k j [] h a = tt
  Above-trans k j ((i, vs) ∷ m) h (b, a) = (cmp_trans k j i h b, Above-trans k j m h a)

  Above-update :
      (i k : Str) (f : List Str → List Str) (m : StrVecMap)
      → ci_cmp ci i k ≡ true
      → Above i m
      → Above i (update ci k f m)
  unfolding update
  Above-update i k f [] h a = (h, tt)
  Above-update i k f ((j, vs) ∷ m) h (b, a) = ground (arith, Above-update i k f m h a)

  -- An update keeps the order of the keys.
  pub update-IsSorted :
      (k : Str) (f : List Str → List Str) (m : StrVecMap) → IsSorted m → IsSorted (update ci k f m)
  unfolding update
  update-IsSorted k f [] s = (tt, tt)
  update-IsSorted k f ((j, vs) ∷ m) (a, s) = elim (Bool-cases (ci_cmp ci k j)) [
    | inl e ↦ rw (e, update) ((e, Above-trans k j m e a), (a, s))
    | inr e ↦ elim (Bool-cases (ci_cmp ci j k)) [
      | inl g ↦ rw (e, g, update) (Above-update j k f m g a, update-IsSorted k f m s)
      | inr g ↦ rw (e, g, update) (a, s)
    ]
  ]

  -- A key before all others is no key of the map.
  pub at-Above : (k j : Str) (m : StrVecMap) → same_key ci k j ≡ true → Above k m → at ci j m ≡ []
  unfolding at
  at-Above k j [] h a = refl
  at-Above k j ((i, vs) ∷ m) h (b, a) =
      let c = cmp_same k j i h b in
      let d : same_key ci i j ≡ false = unfold same_key in ground (arith, c) in
      rw d (at-Above k j m h a)

  pub same_refl : (k : Str) → same_key ci k k ≡ true
  same_refl k = (same_key_iff ci k k).1 refl

  same_of : (a b : Str) → ci_cmp ci a b ≡ false → ci_cmp ci b a ≡ false → same_key ci a b ≡ true
  unfolding same_key
  same_of a b h k = ground arith

  differ_lt : (a b : Str) → ci_cmp ci a b ≡ true → same_key ci a b ≡ false
  unfolding same_key
  differ_lt a b h = rw h (refl)

  -- If `i` is `k` then `i` is `j` as soon as `k` is.
  pub same_swap : (i j k : Str) → same_key ci i k ≡ true → same_key ci i j ≡ same_key ci k j
  unfolding same_key ci_cmp
  same_swap i j k h =
      ap (λ x. not (lex x (ci_fix ci j)) && not (lex (ci_fix ci j) x)) ((same_key_iff ci i k).0 h)

  -- After an update of `k` every key that is `k` has the new vector, and every other its old one.
  pub at-update :
      (j k : Str) (f : List Str → List Str) (m : StrVecMap)
      → IsSorted m
      → at ci j (update ci k f m) ≡ (if same_key ci k j then f (at ci k m) else at ci j m)
  unfolding update at
  at-update j k f [] s = ground arith
  at-update j k f ((i, vs) ∷ m) (a, s) = elim (Bool-cases (ci_cmp ci k i)) [
    | inl e ↦
        let h : at ci k ((i, vs) ∷ m) ≡ [] =
          at-Above k k ((i, vs) ∷ m) (same_refl k) (e, Above-trans k i m e a) in
        ground (arith, h)
    | inr e ↦ elim (Bool-cases (ci_cmp ci i k)) [
      | inl g ↦ ground (
        arith,
        at-update j k f m s,
        differ_lt i k g,
        same_swap i k j,
        same_swap k i j,
        same_key_iff ci i j,
        same_key_iff ci k j,
        same_key_iff ci i k,
      )
      | inr g ↦ ground (arith, same_of i k g e, same_swap i j k (same_of i k g e))
    ]
  ]

  -- Keys that are one read the same vector.
  pub at-same : (j k : Str) (m : StrVecMap) → same_key ci k j ≡ true → at ci k m ≡ at ci j m
  unfolding at
  at-same j k [] h = refl
  at-same j k ((i, vs) ∷ m) h =
      ground (arith, at-same j k m h, same_key_iff ci i j, same_key_iff ci i k, same_key_iff ci k j)

  -- An update makes its key present.
  pub contains-update :
      (k : Str) (f : List Str → List Str) (m : StrVecMap) → contains ci k (update ci k f m) ≡ true
  unfolding update contains
  contains-update k f [] = ground (arith, same_refl k)
  contains-update k f ((i, vs) ∷ m) =
      ground (arith, contains-update k f m, same_refl k, same_of i k)

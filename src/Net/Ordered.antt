-- ===== src/Net/Ordered.antt =====
-- The multimap of the headers, src/network.cpp: it is in the order of its keys, and the values of a key
-- are in the order in which they came.
use skivvy.Base.{
  false, true, ◌≡◌, refl, ap, subst, ◌∙◌, sym, List, [], ◌∷◌, ◌++◌, append-nil, arith, Str, str_eq,
  str_eq_iff, All, Bool-cases, inl, inr, if◌then◌else◌,
}
use skivvy.Store.{lex}
use skivvy.Store.Order.{lex_asym, lex_trans, lex_irrefl}
use skivvy.Net.Http.{HeaderMap, insert_header}

-- No key is less than one before it.
abbrev pub IsOrdered : HeaderMap → Type 0
IsOrdered [] = Unit
IsOrdered ((j, u) ∷ m) = All (λ (p : Str × Str). lex p.0 j ≡ false) m × IsOrdered m

-- The values of a key, in order.
abbrev pub values : Str → List (Str × Str) → List Str
values k [] = []
values k ((j, v) ∷ m) = let rest = values k m in if str_eq j k then v ∷ rest else rest

insert_header-All :
    (P : Str × Str → Type 0) (k v : Str) (m : HeaderMap)
    → P (k, v)
    → All P m
    → All P (insert_header k v m)
unfolding insert_header
insert_header-All P k v [] h hs = (h, tt)
insert_header-All P k v ((j, u) ∷ m) h (g, gs) = elim (Bool-cases (lex k j)) [
  | inl e ↦ rw e (h, (g, gs))
  | inr e ↦ rw e (g, insert_header-All P k v m h gs)
]

above :
    (k j : Str) (m : HeaderMap)
    → lex k j ≡ true
    → All (λ (p : Str × Str). lex p.0 j ≡ false) m
    → All (λ (p : Str × Str). lex p.0 k ≡ false) m
above k j [] e h = tt
above k j ((i, u) ∷ m) e (h, hs) = (ground (arith, lex_trans i k j), above k j m e hs)

pub insert_header-IsOrdered :
    (k v : Str) (m : HeaderMap) → IsOrdered m → IsOrdered (insert_header k v m)
unfolding insert_header
insert_header-IsOrdered k v [] h = (tt, tt)
insert_header-IsOrdered k v ((j, u) ∷ m) (h, hs) = elim (Bool-cases (lex k j)) [
  | inl e ↦ rw e ((lex_asym k j e, above k j m e h), (h, hs))
  | inr e ↦ rw e (
    insert_header-All (λ (p : Str × Str). lex p.0 j ≡ false) k v m e h,
    insert_header-IsOrdered k v m hs,
  )
]

-- A key below those of an ordered map has no values there.
absent :
    (k j : Str) (m : HeaderMap)
    → lex k j ≡ true
    → All (λ (p : Str × Str). lex p.0 j ≡ false) m
    → values k m ≡ []
absent k j [] e h = refl
absent k j ((i, u) ∷ m) e (h, hs) = ground (arith, str_eq_iff i k, absent k j m e hs)

pub values-insert_header :
    (x k v : Str) (m : HeaderMap)
    → IsOrdered m
    → values x (insert_header k v m) ≡ values x m ++ values x ((k, v) ∷ [])
unfolding insert_header
values-insert_header x k v [] h = refl
values-insert_header x k v ((j, u) ∷ m) (h, hs) = elim (Bool-cases (lex k j)) [
  | inl e ↦ elim (Bool-cases (str_eq k x)) [
    | inl s ↦
        let less : lex x j ≡ true = subst (λ y. lex y j ≡ true) ((str_eq_iff k x).0 s) e in
        let none_there = absent x j ((j, u) ∷ m) less (lex_irrefl j, h) in
        rw (e, s) (ap (◌∷◌ v) none_there ∙ ap (λ l. l ++ v ∷ []) (sym none_there))
    | inr n ↦ rw (e, n) (sym (append-nil (values x ((j, u) ∷ m))))
  ]
  | inr e ↦ elim (Bool-cases (str_eq j x)) [
    | inl s ↦ rw (e, s) (ap (◌∷◌ u) (values-insert_header x k v m hs))
    | inr n ↦ rw (e, n) (values-insert_header x k v m hs)
  ]
]

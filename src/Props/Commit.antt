-- ===== src/Props/Commit.antt =====
-- What the properties of src/include/skivvy/props.h keep behind commits and rollbacks: theorem.
use skivvy.Base.{
  Bool, Option, some, none, List, [], ◌∷◌, Str, str_eq, str_eq_iff, if◌then◌else◌, arith, ◌≡◌, refl,
  then_of, else_of, Bool-cases, inl, inr, ap, sym, subst, ◌⊎◌, ◌∙◌, true, false,
}
use skivvy.Props.{
  PropertyMap, Properties, new_properties, find, put_property, or_else, get_property, set_property,
  put_all, commit, rollback, value_or,
}

differ_sym : (k a : Str) → str_eq k a ≡ false → str_eq a k ≡ false
differ_sym k a e = ground (arith, str_eq_iff k a, str_eq_iff a k)

-- A string is not equal to two others that differ.
apart : (k a s : Str) → str_eq k a ≡ false → (str_eq k s ≡ false) ⊎ (str_eq a s ≡ false)
apart k a s e = elim (Bool-cases (str_eq k s)) [
  | inl f ↦ inr (ap (str_eq a) (sym ((str_eq_iff k s).0 f)) ∙ differ_sym k a e)
  | inr f ↦ inl f
]

find-put_property :
    (s a v : Str) (m : PropertyMap)
    → find s (put_property a v m) ≡ (if str_eq a s then some v else find s m)
unfolding find put_property
find-put_property s a v [] = refl
find-put_property s a v ((k, u) ∷ m) = elim (Bool-cases (str_eq k a)) [
  | inl e ↦
      let q : k ≡ a = (str_eq_iff k a).0 e in
      ap (find s) (then_of (str_eq k a) _ _ e) ∙ ground (arith, ap (λ (c : Str). str_eq c s) q)
  | inr e ↦
      ap (find s) (else_of (str_eq k a) _ _ e)
      ∙ ap (λ (o : Option Str). if str_eq k s then some u else o) (find-put_property s a v m)
      ∙ ground (arith, apart k a s e)
]

-- No key stands twice.
Unique : PropertyMap → Type 0
Unique [] = Unit
Unique ((k, v) ∷ m) = (find k m ≡ none) × Unique m

put_property-Unique : (a v : Str) (m : PropertyMap) → Unique m → Unique (put_property a v m)
unfolding Unique put_property find
put_property-Unique a v [] h = (refl, h)
put_property-Unique a v ((k, u) ∷ m) (f, h) = elim (Bool-cases (str_eq k a)) [
  | inl e ↦ subst Unique (sym (then_of (str_eq k a) _ _ e)) (f, h)
  | inr e ↦ subst Unique (sym (else_of (str_eq k a) _ _ e)) (
    find-put_property k a v m ∙ else_of (str_eq a k) _ _ (differ_sym k a e) ∙ f,
    put_property-Unique a v m h,
  )
]

find-put_all :
    (s : Str) (t m : PropertyMap) → Unique t → find s (put_all t m) ≡ or_else (find s t) (find s m)
unfolding find put_all Unique
find-put_all s [] m h = refl
find-put_all s ((k, v) ∷ t) m (f, h) =
    find-put_all s t (put_property k v m) h
    ∙ ap (or_else (find s t)) (find-put_property s k v m)
    ∙ elim (Bool-cases (str_eq k s)) [
      | inl e ↦
          let g : find s t ≡ none = subst (λ (c : Str). find c t ≡ none) ((str_eq_iff k s).0 e) f in
          rw (g, e) refl
      | inr e ↦ rw e refl
    ]

-- The calls; the end of a `transaction` is a commit.
pub data Op : Type 0 where
  sets : Str → Str → Op
  commits : Op
  rolls_back : Op

unfoldable pub step : Op → Properties → Properties
step (sets s v) p = set_property s v p
step commits p = commit p
step rolls_back p = rollback p

unfoldable pub run : Properties → List Op → Properties
run p [] = p
run p (o ∷ os) = run (step o p) os

-- What properties are to their users: the values that are seen, and those that a rollback leads
-- back to.
pub record Values : Type 0 where
  pub seen : Str → Option Str
  pub kept : Str → Option Str

abbrev pub no_values : Values
no_values = record { seen = λ s. none; kept = λ s. none }

unfoldable pub change : Op → Values → Values
change (sets k v) q = record q { seen = λ s. if str_eq k s then some v else q.seen s }
change commits q = record q { kept = q.seen }
change rolls_back q = record q { seen = q.kept }

unfoldable pub changes : Values → List Op → Values
changes q [] = q
changes q (o ∷ os) = changes (change o q) os

record Agree (p : Properties) (q : Values) : Type 0 where
  unique : Unique p.t
  seen_same : (s : Str) → or_else (find s p.t) (find s p.m) ≡ q.seen s
  kept_same : (s : Str) → find s p.m ≡ q.kept s

or_else_if :
    (b : Bool) (v : Str) (o r : Option Str)
    → or_else (if b then some v else o) r ≡ (if b then some v else or_else o r)
or_else_if true v o r = refl
or_else_if false v o r = refl

step-Agree : (o : Op) (p : Properties) (q : Values) → Agree p q → Agree (step o p) (change o q)
unfolding step change set_property commit rollback find Unique
step-Agree (sets k v) p q a = record {
  unique = put_property-Unique k v p.t a.unique;
  seen_same = λ s.
      ap (λ (o : Option Str). or_else o (find s p.m)) (find-put_property s k v p.t)
      ∙ or_else_if (str_eq k s) v (find s p.t) (find s p.m)
      ∙ ap (λ (o : Option Str). if str_eq k s then some v else o) (a.seen_same s);
  kept_same = a.kept_same;
}
step-Agree commits p q a = record {
  unique = tt;
  seen_same = λ s. find-put_all s p.t p.m a.unique ∙ a.seen_same s;
  kept_same = λ s. find-put_all s p.t p.m a.unique ∙ a.seen_same s;
}
step-Agree rolls_back p q a = record {
  unique = tt;
  seen_same = a.kept_same;
  kept_same = a.kept_same;
}

run-Agree :
    (os : List Op) (p : Properties) (q : Values) → Agree p q → Agree (run p os) (changes q os)
unfolding run changes
run-Agree [] p q a = a
run-Agree (o ∷ os) p q a = run-Agree os (step o p) (change o q) (step-Agree o p q a)

-- Behind any calls on new properties, `get_property` returns the value that is seen for the key, else the
-- default; behind one more rollback it returns what the last commit left, and one more commit changes
-- nothing of what it returns. A value is seen once it is set, a commit keeps all that is seen, a
-- rollback goes back to what is kept.
pub get_property-run :
    (os : List Op) (s dflt : Str)
    → let p = run new_properties os in
      let q = changes no_values os in
      (get_property s dflt p ≡ value_or (q.seen s) dflt)
      × (get_property s dflt (rollback p) ≡ value_or (q.kept s) dflt)
      × (get_property s dflt (commit p) ≡ get_property s dflt p)
unfolding get_property rollback commit find Unique
get_property-run os s dflt =
    let a =
      run-Agree os new_properties no_values
        (record { unique = tt; seen_same = λ s. refl; kept_same = λ s. refl }) in
    let p = run new_properties os in
    (
      ap (λ (o : Option Str). value_or o dflt) (a.seen_same s),
      ap (λ (o : Option Str). value_or o dflt) (a.kept_same s),
      ap (λ (o : Option Str). value_or o dflt) (find-put_all s p.t p.m a.unique),
    )

-- ===== src/Net/Marked.antt =====
-- What `urldecode` of src/network.cpp does to a text in which some bytes are encoded: lemmas.
use skivvy.Base.{
  ℕ, zero, suc, ◌/◌, ◌%◌, ◌≤◌, ◌<◌, Bool, true, false, not, ◌&&◌, ◌≡◌, ◌≢◌, refl, sym, ap, ◌∙◌, inl,
  inr, Option, none, some, List, [], ◌∷◌, ◌++◌, ◌==◌, if◌then◌else◌, arith, Str, str_eq, str_eq_iff,
  length, All, then_of, else_of, Bool-cases, Option-cases,
}
use skivvy.Net.Url.{hex_digit, StrMap, replace_once, replace_while, replace_each, url_code}

-- The bytes that are written with two digits, all ASCII but the control bytes, and not the percent
-- sign.
abbrev pub IsSafe : ℕ → Type 0
IsSafe c = (16 ≤ c) × (c < 128) × (c ≢ b'%')

-- A text in which some bytes are encoded, those with `true`.
abbrev pub Marked : Type 0
Marked = List (ℕ × Bool)

unfoldable pub shown : ℕ → Bool → Str
shown c true = url_code c
shown c false = c ∷ []

unfoldable pub render : Marked → Str
render [] = []
render ((c, b) ∷ ts) = shown c b ++ render ts

-- The code of a byte that is safe is replaced by this byte.
abbrev pub IsSound : Str → Str → Type 0
IsSound k v = (c : ℕ) → c < 256 → url_code c ≡ k → v ≡ c ∷ []

-- The leftmost byte whose code is `k`, decoded.
mark_once : Str → Marked → Option Marked
mark_once k [] = none
mark_once k ((c, b) ∷ ts) =
    let rest = mark_once k ts in
    if b && str_eq (url_code c) k
    then some ((c, false) ∷ ts)
    else elim rest [ none ↦ none | some us ↦ some ((c, b) ∷ us) ]

rendered : Option Marked → Option Str
rendered none = none
rendered (some ts) = some (render ts)

abbrev pub AreSafe : Marked → Type 0
AreSafe = All (λ (t : ℕ × Bool). IsSafe t.0)

hex_digit-ne : (d : ℕ) → d < 16 → hex_digit d ≢ b'%'
hex_digit-ne d h = ground arith

-- A byte that is not the percent sign is passed over.
skip_byte :
    (x y c : ℕ) (v s : Str) (o : Option Str)
    → c ≢ b'%'
    → replace_once (b'%' ∷ x ∷ y ∷ []) v s ≡ o
    → replace_once (b'%' ∷ x ∷ y ∷ []) v (c ∷ s) ≡ elim o [ none ↦ none | some t ↦ some (c ∷ t) ]
unfolding replace_once
skip_byte x y c v s o h e = let f : (c == b'%') ≡ false = ground arith in rw (f, e) refl

-- The code of a byte is passed over if it is not the one that is sought.
skip_code :
    (x y c : ℕ) (v s : Str)
    → str_eq (url_code c) (b'%' ∷ x ∷ y ∷ []) ≡ false
    → replace_once (b'%' ∷ x ∷ y ∷ []) v (url_code c ++ s)
      ≡ elim (replace_once (b'%' ∷ x ∷ y ∷ []) v (hex_digit (c / 16) ∷ hex_digit (c % 16) ∷ s)) [
        | none ↦ none
        | some t ↦ some (b'%' ∷ t)
      ]
unfolding replace_once url_code
skip_code x y c v s h = else_of _ _ _ h

hit_code :
    (x y c : ℕ) (v s : Str)
    → str_eq (url_code c) (b'%' ∷ x ∷ y ∷ []) ≡ true
    → replace_once (b'%' ∷ x ∷ y ∷ []) v (url_code c ++ s) ≡ some (v ++ s)
unfolding replace_once url_code
hit_code x y c v s h = then_of _ _ _ h

rendered-cons :
    (c : ℕ) (b : Bool) (o : Option Marked)
    → elim (rendered o) [ none ↦ none | some t ↦ some (shown c b ++ t) ]
      ≡ rendered (elim o [ none ↦ none | some us ↦ some ((c, b) ∷ us) ])
unfolding rendered render
rendered-cons c b none = refl
rendered-cons c b (some us) = refl

-- The three bytes of a code that is not sought, one after another.
skip_all :
    (x y c : ℕ) (v s : Str) (o : Option Str)
    → c < 256
    → str_eq (url_code c) (b'%' ∷ x ∷ y ∷ []) ≡ false
    → replace_once (b'%' ∷ x ∷ y ∷ []) v s ≡ o
    → replace_once (b'%' ∷ x ∷ y ∷ []) v (url_code c ++ s)
      ≡ elim o [ none ↦ none | some t ↦ some (url_code c ++ t) ]
unfolding url_code
skip_all x y c v s none u h e =
    let second =
      skip_byte x y (hex_digit (c % 16)) v s none (hex_digit-ne (c % 16) (omega arith)) e in
    let first =
      skip_byte x y (hex_digit (c / 16)) v (hex_digit (c % 16) ∷ s) none
        (hex_digit-ne (c / 16) (omega arith)) second in
    skip_code x y c v s h ∙ rw first refl
skip_all x y c v s (some t) u h e =
    let second =
      skip_byte x y (hex_digit (c % 16)) v s (some t) (hex_digit-ne (c % 16) (omega arith)) e in
    let first =
      skip_byte x y (hex_digit (c / 16)) v (hex_digit (c % 16) ∷ s) _
        (hex_digit-ne (c / 16) (omega arith)) second in
    skip_code x y c v s h ∙ rw first refl

replace_once-render :
    (x y : ℕ) (v : Str) (ts : Marked)
    → IsSound (b'%' ∷ x ∷ y ∷ []) v
    → AreSafe ts
    → replace_once (b'%' ∷ x ∷ y ∷ []) v (render ts) ≡ rendered (mark_once (b'%' ∷ x ∷ y ∷ []) ts)
unfolding render mark_once rendered shown
replace_once-render x y v [] is h = unfold replace_once in refl
replace_once-render x y v ((c, false) ∷ ts) is ((l, u, n), h) =
    skip_byte x y c v (render ts) _ n (replace_once-render x y v ts is h)
    ∙ rendered-cons c false (mark_once (b'%' ∷ x ∷ y ∷ []) ts)
replace_once-render x y v ((c, true) ∷ ts) is ((l, u, n), h) =
    let k = b'%' ∷ x ∷ y ∷ [] in
    elim (Bool-cases (str_eq (url_code c) k)) [
      | inl e ↦
          hit_code x y c v (render ts) e
          ∙ ap (λ (w : Str). some (w ++ render ts)) (is c (omega arith) ((str_eq_iff _ _).0 e))
          ∙ sym (ap rendered (then_of (str_eq (url_code c) k) _ _ e))
      | inr e ↦
          skip_all x y c v (render ts) _ (omega arith) e (replace_once-render x y v ts is h)
          ∙ rendered-cons c true (mark_once k ts)
          ∙ sym (ap rendered (else_of (str_eq (url_code c) k) _ _ e))
    ]

-- All bytes whose code is `k`, decoded.
unfoldable pub mark_all : Str → Marked → Marked
mark_all k [] = []
mark_all k ((c, b) ∷ ts) = (c, b && not (str_eq (url_code c) k)) ∷ mark_all k ts

-- How many bytes are encoded.
coded : Marked → ℕ
coded [] = 0
coded ((c, b) ∷ ts) = if b then suc (coded ts) else coded ts

mark_once-none : (k : Str) (ts : Marked) → mark_once k ts ≡ none → mark_all k ts ≡ ts
unfolding mark_once mark_all
mark_once-none k [] h = refl
mark_once-none k ((c, b) ∷ ts) h = elim (Option-cases (mark_once k ts)) [
  | inl e ↦ ground (arith, mark_once-none k ts e)
  | inr (us, e) ↦ ground arith
]

record IsMarked (k : Str) (ts us : Marked) : Type 0 where
  all_same : mark_all k us ≡ mark_all k ts
  fewer : suc (coded us) ≡ coded ts
  safe : AreSafe ts → AreSafe us

mark_once-some : (k : Str) (ts us : Marked) → mark_once k ts ≡ some us → IsMarked k ts us
unfolding mark_once mark_all coded
mark_once-some k [] us h = cc
mark_once-some k ((c, false) ∷ ts) us h = elim (Option-cases (mark_once k ts)) [
  | inl e ↦ ground arith
  | inr (vs, e) ↦
      let r = mark_once-some k ts vs e in
      let q : us ≡ (c, false) ∷ vs = ground arith in
      rw q (record {
        all_same = ap (λ (x : Marked). (c, false) ∷ x) r.all_same;
        fewer = r.fewer;
        safe = λ (l, g). (l, r.safe g);
      })
]
mark_once-some k ((c, true) ∷ ts) us h = elim (Bool-cases (str_eq (url_code c) k)) [
  | inl f ↦
      let q : us ≡ (c, false) ∷ ts = ground arith in
      rw q (record { all_same = rw f refl; fewer = refl; safe = λ g. g })
  | inr f ↦ elim (Option-cases (mark_once k ts)) [
    | inl e ↦ ground arith
    | inr (vs, e) ↦
        let r = mark_once-some k ts vs e in
        let q : us ≡ (c, true) ∷ vs = ground arith in
        rw q (record {
          all_same = ap (λ (x : Marked). (c, true && not (str_eq (url_code c) k)) ∷ x) r.all_same;
          fewer = omega (arith, r.fewer);
          safe = λ (l, g). (l, r.safe g);
        })
  ]
]

pub while_done :
    (fuel : ℕ) (from to s : Str)
    → replace_once from to s ≡ none
    → replace_while (suc fuel) from to s ≡ some s
unfolding replace_while
while_done fuel from to s e = rw (e, replace_while) refl

pub while_more :
    (fuel : ℕ) (from to s t : Str)
    → replace_once from to s ≡ some t
    → replace_while (suc fuel) from to s ≡ replace_while fuel from to t
unfolding replace_while
while_more fuel from to s t e =
    ap (λ (o : Option Str). elim o [ none ↦ some s | some t ↦ replace_while fuel from to t ]) e

pub each_more :
    (k v s t : Str) (m : StrMap)
    → replace_while (suc (length s)) k v s ≡ some t
    → replace_each ((k, v) ∷ m) s ≡ replace_each m t
unfolding replace_each
each_more k v s t m e =
    ap (λ (o : Option Str). elim o [ none ↦ none | some t ↦ replace_each m t ]) e

replace_while-render :
    (fuel x y : ℕ) (v : Str) (ts : Marked)
    → IsSound (b'%' ∷ x ∷ y ∷ []) v
    → AreSafe ts
    → coded ts < fuel
    → replace_while fuel (b'%' ∷ x ∷ y ∷ []) v (render ts)
      ≡ some (render (mark_all (b'%' ∷ x ∷ y ∷ []) ts))
replace_while-render zero x y v ts is h lt = absurd (omega arith)
replace_while-render (suc fuel) x y v ts is h lt =
    let k = b'%' ∷ x ∷ y ∷ [] in
    let e = replace_once-render x y v ts is h in
    elim (Option-cases (mark_once k ts)) [
      | inl n ↦
          let o : replace_once k v (render ts) ≡ none = e ∙ unfold rendered in rw n refl in
          while_done fuel k v (render ts) o
          ∙ ap (λ (x : Marked). some (render x)) (sym (mark_once-none k ts n))
      | inr (us, m) ↦
          let r = mark_once-some k ts us m in
          let o : replace_once k v (render ts) ≡ some (render us) =
            e ∙ unfold rendered in rw m refl in
          while_more fuel k v (render ts) (render us) o
          ∙ replace_while-render fuel x y v us is (r.safe h) (omega (arith, r.fewer))
          ∙ ap (λ (x : Marked). some (render x)) r.all_same
    ]

coded-le : (ts : Marked) → coded ts ≤ length (render ts)
unfolding coded render shown url_code
coded-le [] = omega arith
coded-le ((c, false) ∷ ts) = omega (arith, coded-le ts)
coded-le ((c, true) ∷ ts) = omega (arith, coded-le ts)

-- The keys are codes of three bytes, each with the byte that it stands for.
abbrev pub IsTable : StrMap → Type 0
IsTable = All (λ (p : Str × Str).
    (x : ℕ) × (y : ℕ) × (p.0 ≡ b'%' ∷ x ∷ y ∷ []) × IsSound (b'%' ∷ x ∷ y ∷ []) p.1)

unfoldable pub mark_each : StrMap → Marked → Marked
mark_each [] ts = ts
mark_each ((k, v) ∷ m) ts = mark_each m (mark_all k ts)

mark_all-AreSafe : (k : Str) (ts : Marked) → AreSafe ts → AreSafe (mark_all k ts)
unfolding mark_all
mark_all-AreSafe k [] h = tt
mark_all-AreSafe k ((c, b) ∷ ts) (l, h) = (l, mark_all-AreSafe k ts h)

pub replace_each-render :
    (m : StrMap) (ts : Marked)
    → IsTable m
    → AreSafe ts
    → replace_each m (render ts) ≡ some (render (mark_each m ts))
unfolding mark_each replace_each
replace_each-render [] ts t h = refl
replace_each-render ((k, v) ∷ m) ts ((x, y, e, is), t) h = rw e (
    each_more (b'%' ∷ x ∷ y ∷ []) v (render ts) _ m
      (replace_while-render (suc (length (render ts))) x y v ts is h (omega (arith, coded-le ts)))
    ∙ replace_each-render m (mark_all (b'%' ∷ x ∷ y ∷ []) ts) t (mark_all-AreSafe _ ts h))

-- ===== src/BotDb/Commit.antt =====
-- What a transaction writes, and what it does not read.
use skivvy.Base.{
  Bool, true, false, ◌≡◌, refl, sym, ap, subst, ◌∙◌, ◌⊎◌, inl, inr, some, List, [], ◌∷◌, arith, Str,
  str_eq, str_eq_iff, Bool-cases,
}
use skivvy.Store.{update, at, lex, same_key, ci_fix}
use skivvy.Store.Order.{lex_total, same_key_iff}
use skivvy.Store.Map.{IsSorted, update-IsSorted, at-update}
use skivvy.BotDb.{BotDb, insert_key, edit, vector_text, save_key, save_keys}

-- `k` is one of the keys.
abbrev pub Member : Str → List Str → Type 0
Member k [] = ⊥
Member k (j ∷ ks) = (k ≡ j) ⊎ Member k ks

insert_key-Member : (k : Str) (ks : List Str) → Member k (insert_key k ks)
unfolding insert_key
insert_key-Member k [] = inl refl
insert_key-Member k (j ∷ ks) = elim (Bool-cases (lex k j)) [
  | inl e ↦ rw (e, insert_key) (inl refl)
  | inr e ↦ elim (Bool-cases (lex j k)) [
    | inl f ↦ rw (e, f, insert_key) (inr (insert_key-Member k ks))
    | inr f ↦ rw (e, f, insert_key) (inl (lex_total k j e f))
  ]
]

insert_key_keeps : (i k : Str) (ks : List Str) → Member i ks → Member i (insert_key k ks)
unfolding insert_key
insert_key_keeps i k [] h = absurd h
insert_key_keeps i k (j ∷ ks) h = elim (Bool-cases (lex k j)) [
  | inl e ↦ rw (e, insert_key) (inr h)
  | inr e ↦ elim (Bool-cases (lex j k)) [
    | inl f ↦
        rw (e, f, insert_key) (elim h [ inl x ↦ inl x | inr x ↦ inr (insert_key_keeps i k ks x) ])
    | inr f ↦ rw (e, f, insert_key) h
  ]
]

-- What the file of a key holds once the keys are saved.
abbrev pub Written : BotDb → Str → Type 0
Written s k = s.files k ≡ some (vector_text (at false k s.vectors))

save_key-vectors : (k : Str) (s : BotDb) → (save_key k s).vectors ≡ s.vectors
unfolding save_key
save_key-vectors k s = ground arith

save_key-writable : (k : Str) (s : BotDb) → (save_key k s).writable ≡ s.writable
unfolding save_key
save_key-writable k s = elim (Bool-cases (s.writable k)) [
  | inl e ↦ rw (e, save_key) refl
  | inr e ↦ rw (e, save_key) refl
]

pub str_eq_refl : (k : Str) → str_eq k k ≡ true
str_eq_refl k = (str_eq_iff k k).1 refl

save_key-Written : (k : Str) (s : BotDb) → s.writable k ≡ true → Written (save_key k s) k
unfolding save_key
save_key-Written k s w = rw (w, save_key) (rw (str_eq_refl k) refl)

save_key_keeps :
    (i k : Str) (s : BotDb) → s.writable k ≡ true → Written s i → Written (save_key k s) i
unfolding save_key
save_key_keeps i k s w h = elim (Bool-cases (str_eq i k)) [
  | inl e ↦
      rw (w, save_key)
        (rw e (ap (λ x. some (vector_text (at false x s.vectors))) (sym ((str_eq_iff i k).0 e))))
  | inr e ↦ rw (w, save_key) (rw e h)
]

pub save_keys-vectors : (ks : List Str) (s : BotDb) → (save_keys ks s).vectors ≡ s.vectors
unfolding save_keys
save_keys-vectors [] s = refl
save_keys-vectors (k ∷ ks) s = save_keys-vectors ks (save_key k s) ∙ save_key-vectors k s

-- Every key can be written.
abbrev pub AllWritable : BotDb → Type 0
AllWritable s = (k : Str) → s.writable k ≡ true

save_key-AllWritable : (k : Str) (s : BotDb) → AllWritable s → AllWritable (save_key k s)
save_key-AllWritable k s w i = ap (λ (f : Str → Bool). f i) (save_key-writable k s) ∙ w i

pub save_keys_keeps :
    (i : Str) (ks : List Str) (s : BotDb) → AllWritable s → Written s i → Written (save_keys ks s) i
unfolding save_keys
save_keys_keeps i [] s w h = h
save_keys_keeps i (k ∷ ks) s w h =
    save_keys_keeps i ks (save_key k s) (save_key-AllWritable k s w) (save_key_keeps i k s (w k) h)

pub save_keys-Written :
    (i : Str) (ks : List Str) (s : BotDb) → AllWritable s → Member i ks → Written (save_keys ks s) i
unfolding save_keys
save_keys-Written i [] s w h = absurd h
save_keys-Written i (k ∷ ks) s w (inl e) =
    save_keys_keeps i ks (save_key k s) (save_key-AllWritable k s w)
      (subst (λ x. Written (save_key k s) x) (sym e) (save_key-Written k s (w k)))
save_keys-Written i (k ∷ ks) s w (inr h) =
    save_keys-Written i ks (save_key k s) (save_key-AllWritable k s w) h

pub save_keys-writable : (ks : List Str) (s : BotDb) → (save_keys ks s).writable ≡ s.writable
unfolding save_keys
save_keys-writable [] s = refl
save_keys-writable (k ∷ ks) s = save_keys-writable ks (save_key k s) ∙ save_key-writable k s

-- Inside a transaction: a vector that is not empty has changed, or stands in its file.
pub record IsTracked (s : BotDb) : Type 0 where
  pub order : IsSorted false s.vectors
  pub tracked : (k : Str) → (at false k s.vectors ≡ []) ⊎ (Member k s.changed_keys ⊎ Written s k)
  pub writable : AllWritable s

-- Between transactions: nothing counts as changed, and a vector that is not empty stands in its file.
pub record IsSaved (s : BotDb) : Type 0 where
  pub order : IsSorted false s.vectors
  pub saved :
      (k : Str)
      → (at false k s.vectors ≡ []) ⊎ (s.files k ≡ some (vector_text (at false k s.vectors)))
  pub unchanged : s.changed_keys ≡ []
  pub writable : AllWritable s

pub same_key_eq : (a b : Str) → same_key false a b ≡ true → a ≡ b
same_key_eq a b h = unfold ci_fix in ((same_key_iff false a b).0 h)

pub edit-IsTracked :
    (k : Str) (f : List Str → List Str) (s : BotDb) → IsTracked s → IsTracked (edit k f s)
unfolding edit
edit-IsTracked k f s t = record {
  order = update-IsSorted false k f s.vectors t.order;
  tracked = λ i. elim (Bool-cases (same_key false k i)) [
    | inl e ↦ inr (
        inl (
          subst (λ x. Member x (insert_key k s.changed_keys)) (same_key_eq k i e)
            (insert_key-Member k s.changed_keys)))
    | inr e ↦
        let q : at false i (update false k f s.vectors) ≡ at false i s.vectors =
          at-update false i k f s.vectors t.order ∙ rw e refl in
        elim (t.tracked i) [
          | inl z ↦ inl (q ∙ z)
          | inr (inl z) ↦ inr (inl (insert_key_keeps i k s.changed_keys z))
          | inr (inr z) ↦ inr (inr (z ∙ ap (λ v. some (vector_text v)) (sym q)))
        ]
  ];
  writable = t.writable;
}

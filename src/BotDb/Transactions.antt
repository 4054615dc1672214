-- ===== src/BotDb/Transactions.antt =====
-- Sequences of transactions on a new database.
use skivvy.Base.{
  ℕ, Bool, true, false, ◌≡◌, refl, sym, ap, subst, ◌∙◌, inl, inr, Option, some, List, [], ◌∷◌, ◌++◌,
  arith, Str,
}
use skivvy.Store.{update, at}
use skivvy.Store.Map.{IsSorted, update-IsSorted, at-update, at-same, same_refl}
use skivvy.BotDb.{
  BotDb, new_db, insert_key, edit, set_value, add_value, get_ref, get_value, get_all, vector_text,
  save_key, load_keys, load_db, save_keys, save_db, begin_transaction, end_transaction,
}
use skivvy.BotDb.Commit.{
  IsTracked, IsSaved, edit-IsTracked, save_keys-Written, save_keys_keeps, save_keys-vectors,
  save_keys-writable, str_eq_refl,
}

-- What a transaction does between its constructor and its destructor.
pub data Op : Type 0 where
  sets : Str → Str → ℕ → Op
  adds : Str → Str → Op
  gets : Str → Str → Op
  gets_all : Str → Op

unfoldable pub op_step : Op → BotDb → BotDb
op_step (sets k v idx) s = set_value k v idx s
op_step (adds k v) s = add_value k v s
op_step (gets k dflt) s = (get_value k dflt s).1
op_step (gets_all k) s = (get_all k s).1

unfoldable pub run_ops : List Op → BotDb → BotDb
run_ops [] s = s
run_ops (o ∷ ops) s = run_ops ops (op_step o s)

-- `rollback` is private and nothing sets it.
unfoldable pub transaction : List Op → BotDb → BotDb
transaction ops s = end_transaction false (run_ops ops (begin_transaction s))

unfoldable pub transactions : List (List Op) → BotDb → BotDb
transactions [] s = s
transactions (t ∷ ts) s = transactions ts (transaction t s)

get_ref-IsTracked : (k : Str) (s : BotDb) → IsTracked s → IsTracked (get_ref k s).1
unfolding get_ref
get_ref-IsTracked k s t = record {
  order = update-IsSorted false k (λ v. v) s.vectors t.order;
  tracked = λ i.
      let q : at false i (update false k (λ v. v) s.vectors) ≡ at false i s.vectors =
        ground
          (arith, at-update false i k (λ v. v) s.vectors t.order, at-same false i k s.vectors) in
      elim (t.tracked i) [
        | inl z ↦ inl (q ∙ z)
        | inr (inl z) ↦ inr (inl z)
        | inr (inr z) ↦ inr (inr (z ∙ ap (λ v. some (vector_text v)) (sym q)))
      ];
  writable = t.writable;
}

op_step-IsTracked : (o : Op) (s : BotDb) → IsTracked s → IsTracked (op_step o s)
unfolding op_step
op_step-IsTracked (sets k v idx) s t = unfold set_value in edit-IsTracked k _ s t
op_step-IsTracked (adds k v) s t = unfold add_value in edit-IsTracked k _ s t
op_step-IsTracked (gets k dflt) s t = unfold get_value in get_ref-IsTracked k s t
op_step-IsTracked (gets_all k) s t = unfold get_all in get_ref-IsTracked k s t

run_ops-IsTracked : (ops : List Op) (s : BotDb) → IsTracked s → IsTracked (run_ops ops s)
unfolding run_ops
run_ops-IsTracked [] s t = t
run_ops-IsTracked (o ∷ ops) s t = run_ops-IsTracked ops (op_step o s) (op_step-IsTracked o s t)

-- With nothing changed the constructor reads no file.
begin_transaction-eq : (s : BotDb) → s.changed_keys ≡ [] → begin_transaction s ≡ s
unfolding begin_transaction load_db load_keys
begin_transaction-eq s e = rw e refl

save_db-IsSaved : (s : BotDb) → IsTracked s → IsSaved (save_db s)
unfolding save_db
save_db-IsSaved s t =
    let ks = s.changed_keys in
    let q : (save_keys ks s).vectors ≡ s.vectors = save_keys-vectors ks s in
    record {
      order = subst (IsSorted false) (sym q) t.order;
      saved = λ k. elim (t.tracked k) [
        | inl z ↦ inl (ap (at false k) q ∙ z)
        | inr (inl z) ↦ inr (save_keys-Written k ks s t.writable z)
        | inr (inr z) ↦ inr (save_keys_keeps k ks s t.writable z)
      ];
      unchanged = refl;
      writable = λ k. ap (λ (f : Str → Bool). f k) (save_keys-writable ks s) ∙ t.writable k;
    }

IsTracked-IsSaved : (s : BotDb) → IsSaved s → IsTracked s
IsTracked-IsSaved s v = record {
  order = v.order;
  tracked = λ k. elim (v.saved k) [ inl z ↦ inl z | inr z ↦ inr (inr z) ];
  writable = v.writable;
}

transaction-IsSaved : (ops : List Op) (s : BotDb) → IsSaved s → IsSaved (transaction ops s)
unfolding transaction end_transaction
transaction-IsSaved ops s v = save_db-IsSaved (run_ops ops (begin_transaction s)) (
    run_ops-IsTracked ops (begin_transaction s)
      (subst IsTracked (sym (begin_transaction-eq s v.unchanged)) (IsTracked-IsSaved s v)))

transactions_keep : (ts : List (List Op)) (s : BotDb) → IsSaved s → IsSaved (transactions ts s)
unfolding transactions
transactions_keep [] s v = v
transactions_keep (t ∷ ts) s v = transactions_keep ts (transaction t s) (transaction-IsSaved t s v)

-- After any sequence of transactions on a new database whose files can all be written, nothing counts
-- as changed, and the file of every key whose vector is not empty holds its strings, a line each.
pub transactions-IsSaved :
    (files : Str → Option Str) (writable : Str → Bool) (ts : List (List Op))
    → ((k : Str) → writable k ≡ true)
    → IsSaved (transactions ts (new_db files writable))
unfolding new_db
transactions-IsSaved files writable ts w =
    transactions_keep ts (new_db files writable)
      (record { order = tt; saved = λ k. inl (unfold at in refl); unchanged = refl; writable = w })

-- The first transaction of a new database reads no file: `get` returns the default whatever the files
-- hold, and after `add` the file of the key, if it can be written, holds nothing but the new value.
pub first_transaction :
    (files : Str → Option Str) (writable : Str → Bool) (k v dflt : Str)
    → writable k ≡ true
    → ((get_value k dflt (begin_transaction (new_db files writable))).0 ≡ dflt)
      × ((transaction (adds k v ∷ []) (new_db files writable)).files k ≡ some (v ++ 10 ∷ []))
unfolding new_db
first_transaction files writable k v dflt w =
    let s = new_db files writable in
    let e : begin_transaction s ≡ s = begin_transaction-eq s refl in
    (
      ap (λ x. (get_value k dflt x).0) e ∙ unfold get_value get_ref at in refl,
      unfold transaction run_ops op_step add_value end_transaction in
          (ap (λ x. (save_db (edit k (λ u. u ++ v ∷ []) x)).files k) e ∙ saved),
    )
  where
    saved :
        (save_db (edit k (λ u. u ++ v ∷ []) (new_db files writable))).files k ≡ some (v ++ 10 ∷ [])
    saved =
        unfold save_db save_keys insert_key edit update at vector_text save_key in
        (rw w (rw (str_eq_refl k) (rw (same_refl false k) refl)))

-- ===== src/Flood/Fair.antt =====
-- Fairness: an event at the head of its queue is called within one round for each channel.
use skivvy.Base.{
  ℕ, zero, suc, ◌≤◌, ◌<◌, true, ◌≡◌, ◌≢◌, refl, sym, ap, subst, ◌∙◌, inl, inr, some, List, [], ◌∷◌,
  arith, ◌==◌, Str, str_eq, str_eq_iff, length, get_elem?, Bool-cases, ==_iff,
}
use mathlib.Core.Bool.{false≢true}
use skivvy.Flood.{Flood, queue_of, put, has_key, waiting, first, seek, dispatch}
use skivvy.Flood.Channels.{queue_of-put, IsDistinct}
use skivvy.Flood.Round.{rank, Found, first-lt, seek-Found, dispatch_head, waiting_head}

get_elem?-has_key :
    (ks : List Str) (i : ℕ) (k : Str) → get_elem? ks i ≡ some k → has_key k ks ≡ true
unfolding has_key
get_elem?-has_key [] i k h = cc
get_elem?-has_key (j ∷ ks) zero k h = ground (arith, str_eq_iff j k)
get_elem?-has_key (j ∷ ks) (suc i) k h = ground (arith, get_elem?-has_key ks i k h)

-- In a list without duplicates two positions that hold one key are one.
distinct_positions :
    (ks : List Str) (i j : ℕ) (k : Str)
    → IsDistinct ks
    → get_elem? ks i ≡ some k
    → get_elem? ks j ≡ some k
    → i ≡ j
distinct_positions [] i j k d e f = cc
distinct_positions (x ∷ ks) zero zero k d e f = refl
distinct_positions (x ∷ ks) zero (suc j) k (d, ds) e f = ground (arith, get_elem?-has_key ks j k f)
distinct_positions (x ∷ ks) (suc i) zero k (d, ds) e f = ground (arith, get_elem?-has_key ks i k e)
distinct_positions (x ∷ ks) (suc i) (suc j) k (d, ds) e f =
    ap suc (distinct_positions ks i j k ds e f)

get_elem?-lt {ℓ} :
    {A : Type ℓ} (xs : List A) (i : ℕ) (a : A) → get_elem? xs i ≡ some a → i < length xs
get_elem?-lt [] i a h = cc
get_elem?-lt (x ∷ xs) zero a h = omega arith
get_elem?-lt (x ∷ xs) (suc i) a h = omega (arith, get_elem?-lt xs i a h)

module _ {ℓ} {A : Type ℓ} where
  -- `n` rounds of the dispatcher.
  pub rounds : ℕ → Flood A → Flood A
  rounds zero s = s
  rounds (suc n) s = rounds n (dispatch s).0

  rank-lt : (s : Flood A) (j : ℕ) → j < length s.keys → rank s j < length s.keys
  unfolding rank
  rank-lt s j h = ground (arith, first-lt s)

  -- After a round at `p`, a position that lay farther has come nearer.
  rank-next :
      (s t : Flood A) (j p : ℕ)
      → t.keys ≡ s.keys
      → t.idx ≡ p
      → j < length s.keys
      → p < length s.keys
      → p ≢ j
      → rank s p ≤ rank s j
      → rank t j < rank s j
  unfolding rank first
  rank-next s t j p e f lt lp ne le = ground arith

  waiting_of :
      (s : Flood A) (j : ℕ) (k : Str) (a : A) (q : List A)
      → get_elem? s.keys j ≡ some k
      → queue_of k s.m ≡ a ∷ q
      → waiting s j ≡ true
  unfolding waiting
  waiting_of s j k a q e f = rw (e, waiting) (rw f)

  -- A round at another position leaves the queue alone.
  queue_stays :
      (s : Flood A) (p j : ℕ) (kp k : Str) (qp : List A)
      → IsDistinct s.keys
      → get_elem? s.keys p ≡ some kp
      → get_elem? s.keys j ≡ some k
      → p ≢ j
      → queue_of k (put kp qp s.m) ≡ queue_of k s.m
  queue_stays s p j kp k qp d ep e ne = elim (Bool-cases (str_eq kp k)) [
    | inl same ↦ absurd (
        ne (
          distinct_positions s.keys p j k d
            (subst (λ x. get_elem? s.keys p ≡ some x) ((str_eq_iff kp k).0 same) ep) e))
    | inr other ↦ rw (queue_of-put k kp qp s.m, other)
  ]

  -- One round at another position, and what follows it.
  later :
      (b : ℕ) (s : Flood A) (j p : ℕ) (k : Str) (a : A) (q : List A)
      → ((t : Flood A)
          → rank t j < b
          → IsDistinct t.keys
          → get_elem? t.keys j ≡ some k
          → queue_of k t.m ≡ a ∷ q
          → (n : ℕ) × (n < b) × ((dispatch (rounds n t)).1 ≡ some a))
      → rank s j < suc b
      → IsDistinct s.keys
      → get_elem? s.keys j ≡ some k
      → queue_of k s.m ≡ a ∷ q
      → j < length s.keys
      → Found s j p
      → p ≢ j
      → (n : ℕ) × (n < suc b) × ((dispatch (rounds n s)).1 ≡ some a)
  unfolding rounds
  later b s j p k a q ih r d e f lt (sk, lp, wp, le) ne =
      let (kp, c, qp, ep, fp) = waiting_head s p wp in
      let t : Flood A = record s { idx = p; m = put kp qp s.m } in
      let step : dispatch s ≡ (t, some c) = dispatch_head s p kp c qp sk ep fp in
      let nearer : rank t j < rank s j = rank-next s t j p refl refl lt lp ne le in
      let (n, ln, g) = ih t (omega arith) d e (queue_stays s p j kp k qp d ep e ne ∙ f) in
      (
        suc n,
        omega arith,
        subst (λ (x : Flood A). (dispatch (rounds n x)).1 ≡ some a) (sym (ap (λ x. x.0) step)) g,
      )

  served_within :
      (b : ℕ) (s : Flood A) (j : ℕ) (k : Str) (a : A) (q : List A)
      → rank s j < b
      → IsDistinct s.keys
      → get_elem? s.keys j ≡ some k
      → queue_of k s.m ≡ a ∷ q
      → (n : ℕ) × (n < b) × ((dispatch (rounds n s)).1 ≡ some a)
  unfolding rounds
  served_within zero s j k a q r d e f = absurd (omega arith)
  served_within (suc b) s j k a q r d e f =
      let lt = get_elem?-lt s.keys j k e in
      let (p, found) = seek-Found s j lt (waiting_of s j k a q e f) in
      elim (Bool-cases (p == j)) [
        | inl here ↦ (
          0,
          omega arith,
          ap (λ x. x.1)
              (dispatch_head s j k a q
                (subst (λ x. seek s ≡ (x, true)) ((==_iff p j).0 here) found.0) e f),
        )
        | inr elsewhere ↦
            later b s j p k a q (λ t. served_within b t j k a q) r d e f lt found
              (λ h. false≢true (sym elsewhere ∙ (==_iff p j).1 h))
      ]

  -- Fairness: if no key stands twice, the head of the queue of a channel that has a key is called by
  -- one of as many rounds, one after the other, as there are keys.
  pub dispatch_fair :
      (s : Flood A) (j : ℕ) (k : Str) (a : A) (q : List A)
      → IsDistinct s.keys
      → get_elem? s.keys j ≡ some k
      → queue_of k s.m ≡ a ∷ q
      → (n : ℕ) × (n < length s.keys) × ((dispatch (rounds n s)).1 ≡ some a)
  dispatch_fair s j k a q d e f =
      served_within (length s.keys) s j k a q (rank-lt s j (get_elem?-lt s.keys j k e)) d e f

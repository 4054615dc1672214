-- ===== src/Flood/Round.antt =====
-- What one round of the dispatcher finds: the first waiting channel behind the one served last.
use skivvy.Base.{
  ℕ, zero, suc, ◌+◌, ◌-◌, ◌≤◌, ◌<◌, true, false, ◌≡◌, refl, sym, ◌∙◌, ◌⊎◌, inl, inr, none, some,
  List, [], ◌∷◌, ◌++◌, arith, leb, ◌==◌, if◌then◌else◌, Str, length, get_elem?, str_eq, subst, ltb,
  ltb→lt, Bool-cases, Option-cases,
}
use mathlib.Core.Bool.{false≢true}
use skivvy.Flood.Channels.{queue_of-put}
use skivvy.Flood.{Flood, send, queue_of, put, waiting, scan, first, seek, take_front, dispatch}

List-cases {ℓ} : {A : Type ℓ} (l : List A) → (l ≡ []) ⊎ ((a : A) × (q : List A) × (l ≡ a ∷ q))
List-cases [] = inl refl
List-cases (a ∷ q) = inr (a, q, refl)

module _ {ℓ} {A : Type ℓ} (s : Flood A) where
  -- No position from `i` up to `j` has an event waiting.
  abbrev pub Idle : ℕ → ℕ → Type 0
  Idle i j = (x : ℕ) → i ≤ x → x < j → waiting s x ≡ false

  -- A scan of `n` positions from `i` ends behind them, or at the first that waits.
  abbrev Scanned : ℕ → ℕ → ℕ → Type 0
  Scanned n i r =
      ((r ≡ i + n) × Idle i (i + n)) ⊎ ((i ≤ r) × (r < i + n) × (waiting s r ≡ true) × Idle i r)

  Idle-cons : (i j : ℕ) → waiting s i ≡ false → Idle (suc i) j → Idle i j
  Idle-cons i j h k x a b = elim (Bool-cases (x == i)) [
    | inl e ↦ rw (eq_of e) h
    | inr e ↦ k x (ground arith) b
  ]
    where
      eq_of : (x == i) ≡ true → x ≡ i
      eq_of e = ground arith

  scan-Scanned : (n i : ℕ) → Scanned n i (scan s n i)
  unfolding scan
  scan-Scanned zero i = inl (omega arith, λ x a b. absurd (omega arith))
  scan-Scanned (suc n) i = elim (Bool-cases (waiting s i)) [
    | inl e ↦ rw (e, scan) (inr (omega arith, omega arith, e, λ x a b. absurd (omega arith)))
    | inr e ↦
        rw (e, scan)
          (elim (scan-Scanned n (suc i)) [
            | inl (r, k) ↦
                inl (omega arith, Idle-cons i (i + suc n) e (λ x a b. k x a (omega arith)))
            | inr (a, b, w, k) ↦
                inr (omega arith, omega arith, w, Idle-cons i (scan s n (suc i)) e k)
          ])
  ]

  -- How far behind the first position of a round a position lies, going round.
  unfoldable pub rank : ℕ → ℕ
  rank x = if leb (first s) x then x - first s else length s.keys - first s + x

  pub first-lt : 0 < length s.keys → first s < length s.keys
  unfolding first
  first-lt h = ground arith

  -- The round finds a waiting position, and none that waits lies nearer.
  abbrev pub Found : ℕ → ℕ → Type 0
  Found j p = (seek s ≡ (p, true)) × (p < length s.keys) × (waiting s p ≡ true) × (rank p ≤ rank j)

  -- A waiting position is not passed by a scan that begins at or before it.
  not-Idle : (i j x : ℕ) → Idle i j → waiting s x ≡ true → i ≤ x → x < j → ⊥
  not-Idle i j x k w a b = false≢true (sym (k x a b) ∙ w)

  seek_from :
      (j : ℕ)
      → j < length s.keys
      → waiting s j ≡ true
      → first s < length s.keys
      → Scanned (length s.keys - first s) (first s) (scan s (length s.keys - first s) (first s))
      → Scanned (first s) 0 (scan s (first s) 0)
      → (p : ℕ) × Found j p
  unfolding seek rank
  seek_from j lt w f (inr (a, b, v, k)) _ = (
    scan s (length s.keys - first s) (first s),
    (
      ground arith,
      omega arith,
      v,
      ground (arith, not-Idle (first s) (scan s (length s.keys - first s) (first s)) j k w),
    ),
  )
  seek_from j lt w f (inl (r, k)) (inr (a, b, v, k')) = (
    scan s (first s) 0,
    (
      ground arith,
      omega arith,
      v,
      ground (
        arith,
        not-Idle (first s) (first s + (length s.keys - first s)) j k w,
        not-Idle 0 (scan s (first s) 0) j k' w,
      ),
    ),
  )
  seek_from j lt w f (inl (r, k)) (inl (r', k')) = absurd (
      ground (
        arith,
        not-Idle (first s) (first s + (length s.keys - first s)) j k w,
        not-Idle 0 (0 + first s) j k' w,
      ))

  -- If any position waits, a round finds one that is no farther.
  pub seek-Found : (j : ℕ) → j < length s.keys → waiting s j ≡ true → (p : ℕ) × Found j p
  seek-Found j lt w =
      seek_from j lt w (first-lt (omega arith)) (scan-Scanned (length s.keys - first s) (first s))
        (scan-Scanned (first s) 0)

  first-le : first s ≤ length s.keys
  unfolding first
  first-le = ground arith

  -- Whether a round found something.
  abbrev Outcome : Type 0
  Outcome =
      ((p : ℕ) × (seek s ≡ (p, true)) × (waiting s p ≡ true))
      ⊎ (((seek s).1 ≡ false) × Idle 0 (length s.keys))

  Idle-join : (i j : ℕ) → Idle 0 i → Idle i j → Idle 0 j
  Idle-join i j h k x a b = elim (Bool-cases (ltb x i)) [
    | inl e ↦ h x a (ltb→lt x i e)
    | inr e ↦ k x (ground arith) b
  ]

  outcome_from :
      Scanned (length s.keys - first s) (first s) (scan s (length s.keys - first s) (first s))
      → Scanned (first s) 0 (scan s (first s) 0)
      → Outcome
  unfolding seek
  outcome_from (inr (a, b, v, k)) _ =
      inl (scan s (length s.keys - first s) (first s), ground (arith, first-le), v)
  outcome_from (inl (r, k)) (inr (a, b, v, k')) =
      inl (scan s (first s) 0, ground (arith, first-le), v)
  outcome_from (inl (r, k)) (inl (r', k')) =
      let e : first s + (length s.keys - first s) ≡ length s.keys = omega (arith, first-le) in
      let e' : 0 + first s ≡ first s = omega arith in
      inr (
        ground (arith, first-le),
        Idle-join (first s) (length s.keys) (subst (Idle 0) e' k') (subst (Idle (first s)) e k),
      )

  outcome : Outcome
  outcome =
      outcome_from (scan-Scanned (length s.keys - first s) (first s)) (scan-Scanned (first s) 0)

module _ {ℓ} {A : Type ℓ} where
  -- A round at a position whose channel waits calls the head of its queue, and takes it off.
  pub dispatch_head :
      (s : Flood A) (p : ℕ) (k : Str) (a : A) (q : List A)
      → seek s ≡ (p, true)
      → get_elem? s.keys p ≡ some k
      → queue_of k s.m ≡ a ∷ q
      → dispatch s ≡ (record s { idx = p; m = put k q s.m }, some a)
  unfolding dispatch
  dispatch_head s p k a q e f g = rw (e, dispatch) (rw f (rw (g, take_front)))

  pub waiting_head :
      (s : Flood A) (p : ℕ)
      → waiting s p ≡ true
      → (k : Str) × (a : A) × (q : List A) × (get_elem? s.keys p ≡ some k)
        × (queue_of k s.m ≡ a ∷ q)
  unfolding waiting
  waiting_head s p h = elim (Option-cases (get_elem? s.keys p)) [
    | inl e ↦ absurd (false≢true (rw (e, waiting) at h))
    | inr (k, e) ↦ elim (List-cases (queue_of k s.m)) [
      | inl f ↦ absurd (false≢true (rw f at (rw (e, waiting) at h)))
      | inr (a, q, f) ↦ (k, a, q, e, f)
    ]
  ]

  -- A round calls nothing and leaves the queues alone exactly if no channel waits; otherwise it
  -- calls the head of one channel's queue and takes off just that.
  pub dispatch_cases :
      (s : Flood A)
      → (Idle s 0 (length s.keys) × ((dispatch s).1 ≡ none) × ((dispatch s).0.m ≡ s.m))
        ⊎ ((p : ℕ) × (k : Str) × (a : A) × (q : List A) × (get_elem? s.keys p ≡ some k)
            × (queue_of k s.m ≡ a ∷ q)
            × (dispatch s ≡ (record s { idx = p; m = put k q s.m }, some a)))
  dispatch_cases s = elim (outcome s) [
    | inl (p, e, w) ↦
        let (k, a, q, f, g) = waiting_head s p w in
        inr (p, k, a, q, f, g, dispatch_head s p k a q e f g)
    | inr (e, idle) ↦
        inl (idle, unfold dispatch in rw (e, dispatch), unfold dispatch in rw (e, dispatch))
  ]

  -- `send` puts the event behind those of its channel, and leaves the other channels alone.
  pub queue_of-send :
      (j c : Str) (f : A) (s : Flood A)
      → queue_of j (send c f s).0.m
        ≡ (if str_eq c j then queue_of c s.m ++ f ∷ [] else queue_of j s.m)
  unfolding send
  queue_of-send j c f s = queue_of-put j c (queue_of c s.m ++ f ∷ []) s.m

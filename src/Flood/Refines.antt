-- ===== src/Flood/Refines.antt =====
-- What FloodController promises: a queue for each channel, of which each round serves one that waits.
-- The keys, their order and the index are the controller's own.
use skivvy.Base.{
  ℕ, zero, suc, ◌<◌, true, false, not, ◌≡◌, refl, ap, inl, inr, Option, none, some, List, [], ◌∷◌,
  ◌++◌, arith, if◌then◌else◌, Str, str_eq, str_eq_iff, length, get_elem?, Bool-cases, is_nil,
}
use skivvy.Flood.{
  Flood, queue_of, has_key, init, clear, clear_channel, waiting, dispatch, start, stop,
}
use skivvy.Flood.Channels.{
  Call, sends, clears, clears_channel, round, starts, stops, IsConsistent, step, run,
  step-IsConsistent, init-IsConsistent, queue_of-put, queue_of-erase,
}
use skivvy.Flood.Round.{Idle, dispatch_cases, queue_of-send}

abbrev pub Queues {ℓ} : Type ℓ → Type ℓ
Queues A = Str → List A

-- A step of the promise, with what it calls.
pub data Step {ℓ} {A : Type ℓ} : Queues A → Call A → Option A → Queues A → Type ℓ where
  sent :
      {q q' : Queues A} (c : Str) (f : A)
      → ((j : Str) → q' j ≡ (if str_eq c j then q c ++ f ∷ [] else q j))
      → Step q (sends c f) none q'
  cleared : {q q' : Queues A} → ((j : Str) → q' j ≡ []) → Step q clears none q'
  channel_cleared :
      {q q' : Queues A} (c : Str)
      → ((j : Str) → q' j ≡ (if str_eq c j then [] else q j))
      → Step q (clears_channel c) none q'
  served :
      {q q' : Queues A} (k : Str) (a : A) (rest : List A)
      → q k ≡ a ∷ rest
      → ((j : Str) → q' j ≡ (if str_eq k j then rest else q j))
      → Step q round (some a) q'
  idle : {q q' : Queues A} → ((j : Str) → q j ≡ []) → ((j : Str) → q' j ≡ []) → Step q round none q'
  started : {q q' : Queues A} → ((j : Str) → q' j ≡ q j) → Step q starts none q'
  stopped : {q q' : Queues A} → ((j : Str) → q' j ≡ q j) → Step q stops none q'

pub data Steps {ℓ} {A : Type ℓ}
    : Queues A → List (Call A) → List (Option A) → Queues A → Type ℓ where
  done : {q : Queues A} → Steps q [] [] q
  next :
      {q r u : Queues A} {c : Call A} {o : Option A} {cs : List (Call A)} {os : List (Option A)}
      → Step q c o r
      → Steps r cs os u
      → Steps q (c ∷ cs) (o ∷ os) u

has_key-get_elem? :
    (ks : List Str) (k : Str)
    → has_key k ks ≡ true
    → (i : ℕ) × (i < length ks) × (get_elem? ks i ≡ some k)
unfolding has_key
has_key-get_elem? [] k h = cc
has_key-get_elem? (j ∷ ks) k h = elim (Bool-cases (str_eq j k)) [
  | inl e ↦ (zero, omega arith, ap (λ (x : Str). some x) ((str_eq_iff j k).0 e))
  | inr e ↦ let (i, l, g) = has_key-get_elem? ks k (ground arith) in (suc i, omega (arith, l), g)
]

nil_of {ℓ} : {A : Type ℓ} (l : List A) → not (is_nil l) ≡ false → l ≡ []
nil_of [] h = refl
nil_of (a ∷ l) h = cc

module _ {ℓ} {A : Type ℓ} where
  unfoldable pub queues : Flood A → Queues A
  queues s j = queue_of j s.m

  -- What a call makes the controller call.
  unfoldable pub calls_out : Call A → Flood A → Option A
  calls_out (sends c f) s = none
  calls_out clears s = none
  calls_out (clears_channel c) s = none
  calls_out round s = (dispatch s).1
  calls_out starts s = none
  calls_out stops s = none

  unfoldable pub all_out : Flood A → List (Call A) → List (Option A)
  all_out s [] = []
  all_out s (c ∷ cs) = calls_out c s ∷ all_out (step c s) cs

  not_waiting :
      (s : Flood A) (i : ℕ) (k : Str)
      → get_elem? s.keys i ≡ some k
      → waiting s i ≡ false
      → queue_of k s.m ≡ []
  unfolding waiting
  not_waiting s i k e h = nil_of (queue_of k s.m) (rw (e, waiting) at h)

  queue_of-Idle :
      (s : Flood A) → IsConsistent s → Idle s 0 (length s.keys) → (j : Str) → queue_of j s.m ≡ []
  queue_of-Idle s v idles j = elim (Bool-cases (has_key j s.keys)) [
    | inr e ↦ v.covered j e
    | inl e ↦
        let (i, l, g) = has_key-get_elem? s.keys j e in
        not_waiting s i j g (idles i (omega arith) l)
  ]

  clear-queues : (s : Flood A) (j : Str) → queue_of j (clear s).m ≡ []
  unfolding clear queue_of
  clear-queues s j = refl

  clear_channel-queues :
      (c : Str) (s : Flood A)
      → IsConsistent s
      → (j : Str) → queue_of j (clear_channel c s).m ≡ (if str_eq c j then [] else queue_of j s.m)
  unfolding clear_channel
  clear_channel-queues c s v j = elim (Bool-cases (has_key c s.keys)) [
    | inl e ↦ rw (e, clear_channel) (queue_of-erase j c s.m)
    | inr e ↦ rw (e, clear_channel) (ground (arith, v.covered c e, str_eq_iff c j))
  ]

  round-Step :
      (s : Flood A) → IsConsistent s → Step (queues s) round (dispatch s).1 (queues (dispatch s).0)
  unfolding queues
  round-Step s v = elim (dispatch_cases s) [
    | inl (idles, e, m) ↦
        rw (e) (idle (queue_of-Idle s v idles) (λ j. rw (m) (queue_of-Idle s v idles j)))
    | inr (p, k, a, q, f, g, e) ↦ rw (e) (served k a q g (λ j. queue_of-put j k q s.m))
  ]

  start-stop-queues :
      (s : Flood A) (j : Str)
      → (queue_of j (start s).m ≡ queue_of j s.m) × (queue_of j (stop s).m ≡ queue_of j s.m)
  unfolding start stop
  start-stop-queues s j = (refl, refl)

  step-Step :
      (c : Call A) (s : Flood A)
      → IsConsistent s
      → Step (queues s) c (calls_out c s) (queues (step c s))
  unfolding queues calls_out step
  step-Step (sends c f) s v = sent c f (λ j. queue_of-send j c f s)
  step-Step clears s v = cleared (clear-queues s)
  step-Step (clears_channel c) s v = channel_cleared c (clear_channel-queues c s v)
  step-Step round s v = round-Step s v
  step-Step starts s v = started (λ j. (start-stop-queues s j).0)
  step-Step stops s v = stopped (λ j. (start-stop-queues s j).1)

  Steps-run :
      (s : Flood A) (cs : List (Call A))
      → IsConsistent s
      → Steps (queues s) cs (all_out s cs) (queues (run s cs))
  unfolding all_out run
  Steps-run s [] v = done
  Steps-run s (c ∷ cs) v =
      next (step-Step c s v) (Steps-run (step c s) cs (step-IsConsistent c s v))

  -- The controller keeps its promise: any sequence of calls on a new one does to the queues of the
  -- channels, and makes the controller call, what the steps of the promise allow from empty queues. So
  -- each round calls the first event that waits of some channel, or nothing where no channel waits.
  pub run-init-Steps :
      (cs : List (Call A)) → Steps (queues init) cs (all_out init cs) (queues (run init cs))
  run-init-Steps cs = Steps-run init cs init-IsConsistent

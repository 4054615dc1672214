-- ===== src/Flood/Channels.antt =====
-- The map of queues and the list of keys agree: every channel with a waiting event has a key, and
-- no channel has two.
use skivvy.Base.{
  true, false, ◌≡◌, refl, inl, inr, Option, none, some, List, [], ◌∷◌, ◌++◌, arith, if◌then◌else◌,
  Str, str_eq, str_eq_iff, get_elem?, Bool-cases,
}
use skivvy.Flood.{
  Flood, queue_of, put, erase, has_key, erase_key, init, send, clear, clear_channel, seek, dispatch,
  serve, take_front, start, stop,
}

module _ {ℓ} {A : Type ℓ} where
  pub queue_of-put :
      (j k : Str) (q : List A) (m : List (Str × List A))
      → queue_of j (put k q m) ≡ (if str_eq k j then q else queue_of j m)
  unfolding queue_of put
  queue_of-put j k q [] = refl
  queue_of-put j k q ((i, r) ∷ m) =
      ground (arith, str_eq_iff k j, str_eq_iff i k, str_eq_iff i j, queue_of-put j k q m)

  pub queue_of-erase :
      (j k : Str) (m : List (Str × List A))
      → queue_of j (erase k m) ≡ (if str_eq k j then [] else queue_of j m)
  unfolding queue_of erase
  queue_of-erase j k [] = ground arith
  queue_of-erase j k ((i, r) ∷ m) =
      ground (arith, str_eq_iff k j, str_eq_iff i k, str_eq_iff i j, queue_of-erase j k m)

pub has_key-snoc :
    (j c : Str) (ks : List Str)
    → has_key j (ks ++ c ∷ []) ≡ (if has_key j ks then true else str_eq c j)
unfolding has_key
has_key-snoc j c [] = ground arith
has_key-snoc j c (k ∷ ks) = ground (arith, has_key-snoc j c ks)

has_key-erase_key :
    (j c : Str) (ks : List Str) → str_eq c j ≡ false → has_key j (erase_key c ks) ≡ has_key j ks
unfolding has_key erase_key
has_key-erase_key j c [] h = refl
has_key-erase_key j c (k ∷ ks) h =
    ground (arith, has_key-erase_key j c ks, str_eq_iff k c, str_eq_iff k j, str_eq_iff c j)

-- No key stands twice.
abbrev pub IsDistinct : List Str → Type 0
IsDistinct [] = Unit
IsDistinct (k ∷ ks) = (has_key k ks ≡ false) × IsDistinct ks

pub IsDistinct-snoc :
    (c : Str) (ks : List Str) → has_key c ks ≡ false → IsDistinct ks → IsDistinct (ks ++ c ∷ [])
unfolding has_key
IsDistinct-snoc c [] h d = (refl, tt)
IsDistinct-snoc c (k ∷ ks) h (d, ds) = (
  rw (has_key-snoc k c ks, d) (ground (arith, str_eq_iff c k, str_eq_iff k c)),
  IsDistinct-snoc c ks (ground arith) ds,
)

-- Erasing does not bring a key in.
has_key-erase_key_none :
    (j c : Str) (ks : List Str) → has_key j ks ≡ false → has_key j (erase_key c ks) ≡ false
unfolding has_key erase_key
has_key-erase_key_none j c [] h = refl
has_key-erase_key_none j c (k ∷ ks) h = ground (arith, has_key-erase_key_none j c ks)

IsDistinct-erase_key : (c : Str) (ks : List Str) → IsDistinct ks → IsDistinct (erase_key c ks)
unfolding erase_key
IsDistinct-erase_key c [] d = tt
IsDistinct-erase_key c (k ∷ ks) (d, ds) = elim (Bool-cases (str_eq k c)) [
  | inl e ↦ rw (e, erase_key) ds
  | inr e ↦ rw (e, erase_key) (has_key-erase_key_none k c ks d, IsDistinct-erase_key c ks ds)
]

send-IsDistinct :
    (c : Str) (ks : List Str)
    → IsDistinct ks
    → IsDistinct (if has_key c ks then ks else ks ++ c ∷ [])
send-IsDistinct c ks d = elim (Bool-cases (has_key c ks)) [
  | inl e ↦ rw e d
  | inr e ↦ rw e (IsDistinct-snoc c ks e d)
]

-- The calls of the class; `round` is one round of the dispatcher.
pub data Call {ℓ} (A : Type ℓ) : Type ℓ where
  sends : Str → A → Call A
  clears : Call A
  clears_channel : Str → Call A
  round : Call A
  starts : Call A
  stops : Call A

module _ {ℓ} {A : Type ℓ} where
  pub record IsConsistent (s : Flood A) : Type ℓ where
    pub covered : (k : Str) → has_key k s.keys ≡ false → queue_of k s.m ≡ []
    pub distinct : IsDistinct s.keys

  unfoldable pub step : Call A → Flood A → Flood A
  step (sends c f) s = (send c f s).0
  step clears s = clear s
  step (clears_channel c) s = clear_channel c s
  step round s = (dispatch s).0
  step starts s = start s
  step stops s = stop s

  unfoldable pub run : Flood A → List (Call A) → Flood A
  run s [] = s
  run s (c ∷ cs) = run (step c s) cs

  send-IsConsistent : (c : Str) (f : A) (s : Flood A) → IsConsistent s → IsConsistent (send c f s).0
  unfolding send
  send-IsConsistent c f s v = record {
    covered = λ k h. ground (
      arith,
      queue_of-put k c (queue_of c s.m ++ f ∷ []) s.m,
      v.covered k,
      has_key-snoc k c s.keys,
      str_eq_iff c k,
    );
    distinct = send-IsDistinct c s.keys v.distinct;
  }

  clear_channel-IsConsistent :
      (c : Str) (s : Flood A) → IsConsistent s → IsConsistent (clear_channel c s)
  unfolding clear_channel
  clear_channel-IsConsistent c s v = elim (Bool-cases (has_key c s.keys)) [
    | inr e ↦ rw (e, clear_channel) v
    | inl e ↦
        rw (e, clear_channel)
          (record {
            covered = λ k h.
                ground (arith, queue_of-erase k c s.m, v.covered k, has_key-erase_key k c s.keys);
            distinct = IsDistinct-erase_key c s.keys v.distinct;
          })
  ]

  take_front-IsConsistent :
      (s : Flood A) (k : Str) (q : List A)
      → queue_of k s.m ≡ q
      → IsConsistent s
      → IsConsistent (take_front s k q).0
  unfolding take_front
  take_front-IsConsistent s k [] e v = v
  take_front-IsConsistent s k (a ∷ q) e v = record {
    covered = λ j h. ground (arith, queue_of-put j k q s.m, v.covered j h, str_eq_iff k j);
    distinct = v.distinct;
  }

  dispatch-IsConsistent : (s : Flood A) → IsConsistent s → IsConsistent (dispatch s).0
  unfolding dispatch
  dispatch-IsConsistent s v = elim (Bool-cases (seek s).1) [
    | inr e ↦ rw (e, dispatch) (record { covered = v.covered; distinct = v.distinct })
    | inl e ↦ rw (e, dispatch) (go (get_elem? s.keys (seek s).0))
  ]
    where
      s' : Flood A
      s' = record s { idx = (seek s).0 }

      v' : IsConsistent s'
      v' = record { covered = v.covered; distinct = v.distinct }

      go : (o : Option Str) → IsConsistent (serve s' o).0
      go none = v'
      go (some k) = take_front-IsConsistent s' k (queue_of k s'.m) refl v'

  -- Every call keeps the map and the keys in agreement.
  pub step-IsConsistent : (c : Call A) (s : Flood A) → IsConsistent s → IsConsistent (step c s)
  unfolding step
  step-IsConsistent (sends c f) s v = send-IsConsistent c f s v
  step-IsConsistent clears s v =
      unfold clear queue_of in record { covered = λ k h. refl; distinct = tt }
  step-IsConsistent (clears_channel c) s v = clear_channel-IsConsistent c s v
  step-IsConsistent round s v = dispatch-IsConsistent s v
  step-IsConsistent starts s v =
      unfold start in record { covered = v.covered; distinct = v.distinct }
  step-IsConsistent stops s v = unfold stop in record { covered = v.covered; distinct = v.distinct }

  pub init-IsConsistent : IsConsistent (init {A = A})
  unfolding init queue_of
  init-IsConsistent = record { covered = λ k h. refl; distinct = tt }

  run_keeps : (s : Flood A) (cs : List (Call A)) → IsConsistent s → IsConsistent (run s cs)
  unfolding run
  run_keeps s [] v = v
  run_keeps s (c ∷ cs) v = run_keeps (step c s) cs (step-IsConsistent c s v)

  -- After any sequence of calls on a new controller, a channel without a key has no event waiting,
  -- and no key stands twice.
  pub run-init-IsConsistent : (cs : List (Call A)) → IsConsistent (run init cs)
  run-init-IsConsistent cs = run_keeps init cs init-IsConsistent

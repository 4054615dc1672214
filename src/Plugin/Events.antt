-- ===== src/Plugin/Events.antt =====
-- Which waiting functions a message calls.
use skivvy.Base.{
  ℕ, ◌≤◌, sym, true, false, ◌≡◌, refl, ap, ◌∙◌, inl, inr, List, [], ◌∷◌, arith, if◌then◌else◌, Str,
  str_eq, str_eq_iff, Bool-cases,
}
use skivvy.Plugin.{
  MsgEvent, is_over, dispatch_list, events_of, set_events, put_back, add_msgevent,
  dispatch_msgevent,
}

module _ {ℓ} {F : Type ℓ} where
  events_of-set_events :
      (c d : Str) (es : List (MsgEvent F)) (m : List (Str × List (MsgEvent F)))
      → events_of d (set_events c es m) ≡ (if str_eq c d then es else events_of d m)
  unfolding events_of set_events
  events_of-set_events c d es [] = refl
  events_of-set_events c d es ((i, fs) ∷ m) =
      ground (arith, str_eq_iff c d, str_eq_iff i c, str_eq_iff i d, events_of-set_events c d es m)

  events_of_set :
      (c : Str) (es : List (MsgEvent F)) (m : List (Str × List (MsgEvent F)))
      → events_of c (set_events c es m) ≡ es
  events_of_set c es m = ground (arith, events_of-set_events c c es m, str_eq_iff c c)

  skip_events :
      (c i : Str) (fs : List (MsgEvent F)) (m : List (Str × List (MsgEvent F)))
      → str_eq i c ≡ false
      → events_of c ((i, fs) ∷ m) ≡ events_of c m
  unfolding events_of
  skip_events c i fs m e = rw e refl

  skip_put_back :
      (c i : Str) (fs es : List (MsgEvent F)) (m : List (Str × List (MsgEvent F)))
      → str_eq i c ≡ false
      → events_of c (put_back c es ((i, fs) ∷ m)) ≡ events_of c (put_back c es m)
  unfolding put_back
  skip_put_back c i fs es m e = rw e (skip_events c i fs (put_back c es m) e)

  -- A list that was computed from the one there is the one there afterwards.
  events_of-put_back :
      (c : Str) (f : List (MsgEvent F) → List (MsgEvent F)) (m : List (Str × List (MsgEvent F)))
      → f [] ≡ []
      → events_of c (put_back c (f (events_of c m)) m) ≡ f (events_of c m)
  unfolding events_of put_back
  events_of-put_back c f [] h = sym h
  events_of-put_back c f ((i, fs) ∷ m) h = elim (Bool-cases (str_eq i c)) [
    | inl e ↦ rw (e, put_back, events_of) (rw e refl)
    | inr e ↦
        let q = skip_events c i fs m e in
        ap (λ x. events_of c (put_back c (f x) ((i, fs) ∷ m))) q
        ∙ skip_put_back c i fs (f (events_of c m)) m e
        ∙ events_of-put_back c f m h
        ∙ ap f (sym q)
  ]

  dispatch_list_cons :
      (now : ℕ) (e : MsgEvent F) (es : List (MsgEvent F))
      → (dispatch_list now (e ∷ es)).0
        ≡ (if is_over now e then (dispatch_list now es).0 else e.func ∷ (dispatch_list now es).0)
  unfolding dispatch_list
  dispatch_list_cons now e es = elim (Bool-cases (is_over now e)) [
    | inl h ↦ rw (h, dispatch_list) refl
    | inr h ↦ rw (h, dispatch_list) refl
  ]

  -- An event that is added is called first by the next message of its command, if it is neither done nor
  -- timed out, before those that the message would have called; otherwise only those are called.
  pub dispatch_msgevent-add_msgevent :
      (now : ℕ) (c : Str) (e : MsgEvent F) (m : List (Str × List (MsgEvent F)))
      → (dispatch_msgevent now c (add_msgevent c e m)).0 ≡ (
          if is_over now e
          then (dispatch_msgevent now c m).0
          else e.func ∷ (dispatch_msgevent now c m).0)
  unfolding dispatch_msgevent add_msgevent
  dispatch_msgevent-add_msgevent now c e m =
      ap (λ es. (dispatch_list now es).0) (events_of_set c (e ∷ events_of c m) m)
      ∙ dispatch_list_cons now e (events_of c m)

  -- An event that is over stays over.
  is_over_later :
      (now later : ℕ) (e : MsgEvent F) → now ≤ later → is_over now e ≡ true → is_over later e ≡ true
  unfolding is_over
  is_over_later now later e h k = ground arith

  left_cons :
      (now : ℕ) (e : MsgEvent F) (es : List (MsgEvent F))
      → (dispatch_list now (e ∷ es)).1
        ≡ (if is_over now e then (dispatch_list now es).1 else e ∷ (dispatch_list now es).1)
  unfolding dispatch_list
  left_cons now e es = elim (Bool-cases (is_over now e)) [
    | inl h ↦ rw (h, dispatch_list) refl
    | inr h ↦ rw (h, dispatch_list) refl
  ]

  dispatch_list_twice :
      (now later : ℕ) (es : List (MsgEvent F))
      → now ≤ later
      → (dispatch_list later (dispatch_list now es).1).0 ≡ (dispatch_list later es).0
  dispatch_list_twice now later [] h = unfold dispatch_list in refl
  dispatch_list_twice now later (e ∷ es) h =
      let ih = dispatch_list_twice now later es h in
      let left = (dispatch_list now es).1 in
      let called : List (MsgEvent F) → List F = λ l. (dispatch_list later l).0 in
      elim (Bool-cases (is_over now e)) [
        | inl k ↦
            let q : (dispatch_list now (e ∷ es)).1 ≡ left = left_cons now e es ∙ rw k refl in
            ap called q
            ∙ ih
            ∙ sym (dispatch_list_cons later e es ∙ rw (is_over_later now later e h k) refl)
        | inr k ↦
            let q : (dispatch_list now (e ∷ es)).1 ≡ e ∷ left = left_cons now e es ∙ rw k refl in
            ap called q
            ∙ dispatch_list_cons later e left
            ∙ ap (λ l. if is_over later e then l else e.func ∷ l) ih
            ∙ sym (dispatch_list_cons later e es)
      ]

  -- A message at an earlier time, which takes the events off that are over, changes nothing of what a
  -- message of the same command calls later.
  pub dispatch_msgevent_twice :
      (now later : ℕ) (c : Str) (m : List (Str × List (MsgEvent F)))
      → now ≤ later
      → (dispatch_msgevent later c (dispatch_msgevent now c m).1).0
        ≡ (dispatch_msgevent later c m).0
  unfolding dispatch_msgevent
  dispatch_msgevent_twice now later c m h =
      ap (λ es. (dispatch_list later es).0)
        (events_of-put_back c (λ es. (dispatch_list now es).1) m (unfold dispatch_list in refl))
      ∙ dispatch_list_twice now later (events_of c m) h

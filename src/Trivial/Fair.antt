-- ===== src/Trivial/Fair.antt =====
-- The points of the quiz, src/plugin-trivial.cpp, over any sequence of its handlers: lemmas.
use skivvy.Base.{
  ℕ, suc, ◌+◌, ◌≤◌, Bool, true, false, ◌≡◌, refl, ap, ◌∙◌, inl, inr, Option, none, some, List, [],
  ◌∷◌, ◌++◌, arith, ◌==◌, if◌then◌else◌, Str, str_eq, length, get_elem?, then_of, else_of, subst,
  sym, ◌⊎◌, Bool-cases, Option-cases, codes,
}
use skivvy.Bot.Text.{to_string}
use skivvy.Utils.{read_number}
use skivvy.Trivial.{
  Question, Quiz, replies, q_open, q_end, is_right, shown_answer, list_answers, start_question,
  q_ask, q_close, add_point, answer, heard_as, event,
}

-- What happens: a command, the end of the time for an answer, or a message.
pub data Op : Type 0 where
  opens : List Question → Op
  asks : Op
  ends : Op
  closes : Op
  hears : Str → Str → Str → Op

-- `none` stands for a read behind the end. The time ends only while its thread runs.
unfoldable pub step : Op → Quiz → Option Quiz
step (opens qs) s = some (q_open qs s)
step asks s = q_ask s
step ends s = some (if s.pending then q_end s else s)
step closes s = some (q_close s)
step (hears cmd nick text) s = some (event cmd nick text s)

unfoldable pub run : Quiz → List Op → Option Quiz
run s [] = some s
run s (o ∷ os) = elim (step o s) [ none ↦ none | some s' ↦ run s' os ]

unfoldable pub points : List (Str × ℕ) → ℕ
points [] = 0
points ((k, n) ∷ m) = n + points m

abbrev pub asked : List Op → ℕ
asked [] = 0
asked (asks ∷ os) = suc (asked os)
asked (opens qs ∷ os) = asked os
asked (ends ∷ os) = asked os
asked (closes ∷ os) = asked os
asked (hears c n t ∷ os) = asked os

-- No question is asked between `q_close` and the next `q_open`; the flag tells if it is closed.
abbrev pub IsCareful : Bool → List Op → Type 0
IsCareful c [] = Unit
IsCareful c (closes ∷ os) = IsCareful true os
IsCareful c (asks ∷ os) = (c ≡ false) × IsCareful c os
IsCareful c (opens qs ∷ os) = IsCareful false os
IsCareful c (ends ∷ os) = IsCareful c os
IsCareful c (hears k n t ∷ os) = IsCareful c os

-- While answers are accepted the thread runs and no answer was right, and a thread that runs behind
-- them found one; a question that is open counts for the point that it may give.
pub record IsFair (n : ℕ) (s : Quiz) : Type 0 where
  pub fair : points s.totals + (if s.accepting_answers then 1 else 0) ≤ n
  pub open_runs : s.accepting_answers ≡ true → s.pending ≡ true
  pub open_unanswered : s.accepting_answers ≡ true → s.answer_found ≡ false
  pub closed_found : s.accepting_answers ≡ false → s.pending ≡ true → s.answer_found ≡ true

points-add_point : (k : Str) (m : List (Str × ℕ)) → points (add_point k m) ≡ suc (points m)
unfolding points add_point
points-add_point k [] = omega arith
points-add_point k ((j, n) ∷ m) = ground (arith, points-add_point k m)

-- The list of the answers changes nothing that counts.
pub record Keeps (s t : Quiz) : Type 0 where
  pub totals_same : t.totals ≡ s.totals
  pub accepting_same : t.accepting_answers ≡ s.accepting_answers
  pub current_same : t.current ≡ s.current
  pub questions_same : t.questions ≡ s.questions

pub list_answers-Keeps : (n : ℕ) (l : List Str) (s : Quiz) → Keeps s (list_answers n l s)
unfolding list_answers
list_answers-Keeps n [] s = record {
  totals_same = refl;
  accepting_same = refl;
  current_same = refl;
  questions_same = refl;
}
list_answers-Keeps n (a ∷ l) s =
    let noted = if is_right a then record s { answers = s.answers ++ suc n ∷ [] } else s in
    let text = b'[' ∷ (to_string (suc n) ++ codes "] " ++ shown_answer a) in
    let more = list_answers-Keeps (suc n) l (replies text noted) in
    ground (arith, list_answers-Keeps n l s, more)

start_question-IsFair : (n : ℕ) (s : Quiz) → points s.totals ≤ n → IsFair (suc n) (start_question s)
unfolding start_question q_end
start_question-IsFair n s h = ground arith

answer-IsFair :
    (n k : ℕ) (nick : Str) (s : Quiz)
    → s.accepting_answers ≡ true
    → IsFair n s
    → IsFair n (answer nick k s)
unfolding answer
answer-IsFair n k nick s a h = ground (arith, points-add_point nick s.totals)

q_end-IsFair : (n : ℕ) (s : Quiz) → IsFair n s → IsFair n (q_end s)
unfolding q_end
q_end-IsFair n s h = ground arith

some_inj : {a b : Quiz} → some a ≡ some b → a ≡ b
some_inj e = cc

none_ne : {b : Quiz} → none ≡ some b → ⊥
none_ne e = cc

run_nil : (s : Quiz) {t : Quiz} → run s [] ≡ some t → some s ≡ some t
unfolding run
run_nil s e = e

heard_as-IsFair :
    (n : ℕ) (nick : Str) (o : Option ℕ) (s : Quiz)
    → s.accepting_answers ≡ true
    → IsFair n s
    → IsFair n (heard_as nick o s)
heard_as-IsFair n nick none s a h = h
heard_as-IsFair n nick (some k) s a h = answer-IsFair n k nick s a h

event-IsFair :
    (n : ℕ) (cmd nick text : Str) (s : Quiz) → IsFair n s → IsFair n (event cmd nick text s)
unfolding event
event-IsFair n cmd nick text s h = elim (Bool-cases (str_eq cmd (codes "PRIVMSG"))) [
  | inl e ↦ elim (Bool-cases s.accepting_answers) [
    | inl a ↦
        let heard : event cmd nick text s ≡ heard_as nick (read_number text) s =
          then_of (str_eq cmd (codes "PRIVMSG")) _ _ e ∙ then_of s.accepting_answers _ _ a in
        subst (IsFair n) (sym heard) (heard_as-IsFair n nick (read_number text) s a h)
    | inr a ↦
        subst (IsFair n)
          (sym (then_of (str_eq cmd (codes "PRIVMSG")) _ _ e ∙ else_of s.accepting_answers _ _ a)) h
  ]
  | inr e ↦ subst (IsFair n) (sym (else_of (str_eq cmd (codes "PRIVMSG")) _ _ e)) h
]

abbrev pub posed : Question → Quiz → Quiz
posed q s = start_question (list_answers 0 q.a (record (replies q.q s) { answers = [] }))

pub posed_at :
    (s : Quiz) (o : Option Question)
    → get_elem? s.questions s.current ≡ o
    → s.accepting_answers ≡ false
    → (s.current == length s.questions) ≡ false
    → q_ask s ≡ elim o [ none ↦ none | some q ↦ some (posed q s) ]
unfolding q_ask
posed_at s o p a b =
    else_of s.accepting_answers _ _ a
    ∙ else_of (s.current == length s.questions) _ _ b
    ∙ ap (λ (o : Option Question). elim o [ none ↦ none | some q ↦ some (posed q s) ]) p

-- What a question does: a reply, or the next question where answers are not accepted.
q_ask_cases :
    (s t : Quiz)
    → q_ask s ≡ some t
    → ((text : Str) × (t ≡ replies text s))
      ⊎ ((s.accepting_answers ≡ false)
          × (q : Question) × (get_elem? s.questions s.current ≡ some q)
          × (t ≡ posed q s))
unfolding q_ask
q_ask_cases s t e = elim (Bool-cases s.accepting_answers) [
  | inl a ↦ inl (codes "Question in progress.", sym (some_inj (sym (then_of _ _ _ a) ∙ e)))
  | inr a ↦ elim (Bool-cases (s.current == length s.questions)) [
    | inl b ↦ inl (
      codes "First you must use !q_open to load the questions.",
      sym (some_inj (sym (else_of s.accepting_answers _ _ a ∙ then_of _ _ _ b) ∙ e)),
    )
    | inr b ↦ elim (Option-cases (get_elem? s.questions s.current)) [
      | inl o ↦ absurd (none_ne (sym (posed_at s none o a b) ∙ e))
      | inr (q, o) ↦ inr (a, q, o, sym (some_inj (sym (posed_at s (some q) o a b) ∙ e)))
    ]
  ]
]

q_ask-IsFair : (n : ℕ) (s t : Quiz) → IsFair n s → q_ask s ≡ some t → IsFair (suc n) t
q_ask-IsFair n s t h e = elim (q_ask_cases s t e) [
  | inl (text, q) ↦ rw q (ground arith)
  | inr (a, q, o, p) ↦
      let k = list_answers-Keeps 0 q.a (record (replies q.q s) { answers = [] }) in
      rw p (start_question-IsFair n _ (omega (arith, h.fair, ap points k.totals_same)))
]

-- The steps before the last, and what they leave.
run_inv :
    (o : Op) (os : List Op) (s t : Quiz)
    → run s (o ∷ os) ≡ some t
    → (s' : Quiz) × (step o s ≡ some s') × (run s' os ≡ some t)
unfolding run
run_inv o os s t e = go (step o s) refl e
  where
    go :
        (r : Option Quiz)
        → step o s ≡ r
        → elim r [ none ↦ none | some s' ↦ run s' os ] ≡ some t
        → (s' : Quiz) × (step o s ≡ some s') × (run s' os ≡ some t)
    go none p q = absurd (none_ne q)
    go (some s') p q = (s', p, q)

step-IsFair :
    (o : Op) (n : ℕ) (s t : Quiz) → IsFair n s → step o s ≡ some t → IsFair (asked (o ∷ []) + n) t
unfolding step q_open q_close
step-IsFair (opens qs) n s t h e = subst (IsFair (0 + n)) (some_inj e) (ground arith)
step-IsFair asks n s t h e = subst (λ (k : ℕ). IsFair k t) (omega arith) (q_ask-IsFair n s t h e)
step-IsFair ends n s t h e =
    subst (IsFair (0 + n)) (some_inj e) (ground (arith, q_end-IsFair n s h))
step-IsFair closes n s t h e = subst (IsFair (0 + n)) (some_inj e) (ground arith)
step-IsFair (hears c k x) n s t h e =
    subst (λ (m : ℕ). IsFair m t) (omega arith)
      (subst (IsFair n) (some_inj e) (event-IsFair n c k x s h))

asked-cons : (o : Op) (os : List Op) (n : ℕ) → asked os + (asked (o ∷ []) + n) ≡ asked (o ∷ os) + n
asked-cons (opens qs) os n = omega arith
asked-cons asks os n = omega arith
asked-cons ends os n = omega arith
asked-cons closes os n = omega arith
asked-cons (hears c k x) os n = omega arith

pub run-IsFair :
    (os : List Op) (n : ℕ) (s t : Quiz) → IsFair n s → run s os ≡ some t → IsFair (asked os + n) t
run-IsFair [] n s t h e =
    subst (λ (m : ℕ). IsFair m t) (omega arith) (subst (IsFair n) (some_inj (run_nil s e)) h)
run-IsFair (o ∷ os) n s t h e =
    let (s', p, q) = run_inv o os s t e in
    subst (λ (m : ℕ). IsFair m t) (asked-cons o os n)
      (run-IsFair os (asked (o ∷ []) + n) s' t (step-IsFair o n s s' h p) q)

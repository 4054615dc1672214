-- ===== src/Trivial/Points.antt =====
-- The points of the quiz, src/plugin-trivial.cpp, over any sequence of its handlers: theorem.
use skivvy.Base.{
  ℕ, zero, suc, ◌≤◌, ◌<◌, Bool, true, false, ◌≡◌, refl, ap, ◌∙◌, inl, inr, Option, none, some, List,
  [], ◌∷◌, arith, ◌==◌, if◌then◌else◌, Str, str_eq, length, get_elem?, then_of, else_of, subst,
  Bool-cases, codes,
}
use skivvy.Utils.{read_number}
use skivvy.Trivial.{
  Question, Quiz, new_quiz, replies, q_open, q_end, start_question, q_ask, q_close, answer,
  heard_as, event,
}
use skivvy.Trivial.Fair.{
  Op, opens, asks, ends, closes, hears, step, run, points, asked, IsCareful, IsFair,
  list_answers-Keeps, posed, posed_at, run-IsFair,
}

-- `current_question` stands in the questions, or at their end.
InRange : Quiz → Type 0
InRange s = s.current ≤ length s.questions

get_elem?_in : {A : Type 0} (l : List A) (i : ℕ) → i < length l → (a : A) × (get_elem? l i ≡ some a)
get_elem?_in [] i h = absurd (omega arith)
get_elem?_in (x ∷ l) zero h = (x, refl)
get_elem?_in (x ∷ l) (suc i) h = get_elem?_in l i (omega arith)

answer-InRange : (nick : Str) (n : ℕ) (s : Quiz) → InRange s → InRange (answer nick n s)
unfolding answer InRange
answer-InRange nick n s h = ground arith

heard_as-InRange : (nick : Str) (o : Option ℕ) (s : Quiz) → InRange s → InRange (heard_as nick o s)
heard_as-InRange nick none s h = h
heard_as-InRange nick (some n) s h = answer-InRange nick n s h

branch-InRange :
    (b c : Bool) (t u : Quiz)
    → InRange t
    → InRange u
    → InRange (if b then if c then t else u else u)
branch-InRange true true t u k h = k
branch-InRange true false t u k h = h
branch-InRange false c t u k h = h

event-InRange : (cmd nick text : Str) (s : Quiz) → InRange s → InRange (event cmd nick text s)
unfolding event
event-InRange cmd nick text s h =
    branch-InRange (str_eq cmd (codes "PRIVMSG")) s.accepting_answers
      (heard_as nick (read_number text) s) s (heard_as-InRange nick (read_number text) s h) h

posed-InRange : (q : Question) (s : Quiz) → s.current < length s.questions → InRange (posed q s)
unfolding InRange start_question q_end
posed-InRange q s h =
    let k = list_answers-Keeps 0 q.a (record (replies q.q s) { answers = [] }) in
    ground (arith, k.current_same, ap length k.questions_same)

q_ask-InRange : (s : Quiz) → InRange s → (t : Quiz) × (q_ask s ≡ some t) × InRange t
unfolding q_ask InRange
q_ask-InRange s h = elim (Bool-cases s.accepting_answers) [
  | inl a ↦ (_, then_of _ _ _ a, h)
  | inr a ↦ elim (Bool-cases (s.current == length s.questions)) [
    | inl b ↦ (_, else_of s.accepting_answers _ _ a ∙ then_of _ _ _ b, h)
    | inr b ↦
        let lt : s.current < length s.questions = ground arith in
        let (q, o) = get_elem?_in s.questions s.current lt in
        (posed q s, posed_at s (some q) o a b, posed-InRange q s lt)
  ]
]

q_end-InRange : (s : Quiz) → InRange s → InRange (if s.pending then q_end s else s)
unfolding q_end InRange
q_end-InRange s h = ground arith

run-cons : (o : Op) (os : List Op) (s s' : Quiz) → step o s ≡ some s' → run s (o ∷ os) ≡ run s' os
unfolding run
run-cons o os s s' e = ap (λ (r : Option Quiz). elim r [ none ↦ none | some s' ↦ run s' os ]) e

run_total :
    (os : List Op) (c : Bool) (s : Quiz)
    → IsCareful c os
    → (c ≡ false → InRange s)
    → (t : Quiz) × (run s os ≡ some t)
unfolding step
run_total [] c s k h = (s, unfold run in refl)
run_total (opens qs ∷ os) c s k h =
    let (t, e) = run_total os false (q_open qs s) k (λ _. unfold InRange q_open in omega arith) in
    (t, run-cons (opens qs) os s (q_open qs s) refl ∙ e)
run_total (asks ∷ os) c s (opened, k) h =
    let (s', p, r) = q_ask-InRange s (h opened) in
    let (t, e) = run_total os c s' k (λ _. r) in (t, run-cons asks os s s' p ∙ e)
run_total (ends ∷ os) c s k h =
    let s' = if s.pending then q_end s else s in
    let (t, e) = run_total os c s' k (λ f. q_end-InRange s (h f)) in
    (t, run-cons ends os s s' refl ∙ e)
run_total (closes ∷ os) c s k h =
    let (t, e) = run_total os true (q_close s) k (λ f. cc) in
    (t, run-cons closes os s (q_close s) refl ∙ e)
run_total (hears m n x ∷ os) c s k h =
    let (t, e) = run_total os c (event m n x s) k (λ f. event-InRange m n x s (h f)) in
    (t, run-cons (hears m n x) os s (event m n x s) refl ∙ e)

new_quiz-IsFair : IsFair 0 new_quiz
unfolding points
new_quiz-IsFair = ground arith

-- A quiz in which nothing is asked between closing it and opening it again never reads behind the
-- end of its questions. After any such sequence of commands, answers and ends of time no more points
-- are given than questions were asked for, less one while answers are accepted, and while they are the
-- time of the question is not up and no answer was right.
pub run-IsCareful :
    (os : List Op)
    → IsCareful false os
    → (t : Quiz) × (run new_quiz os ≡ some t) × IsFair (asked os) t
run-IsCareful os k =
    let (t, e) = run_total os false new_quiz k (λ _. unfold InRange in omega arith) in
    (
      t,
      e,
      subst (λ (n : ℕ). IsFair n t) (omega arith) (run-IsFair os 0 new_quiz t new_quiz-IsFair e),
    )

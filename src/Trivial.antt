-- ===== src/Trivial.antt =====
-- src/plugin-trivial.cpp: the quiz. Each handler is a step; `expire` is what the thread that a
-- question starts does when the time is up. The plugin names the parts of a message as an older
-- message did, so that a step takes them. The web site that `q_open` copies questions from first is
-- not modelled, nor what the quiz writes to the log.
pub mod Fair
pub mod Points
pub mod File
mod Tests
use skivvy.Base.{
  ℕ, zero, suc, ◌+◌, Bool, true, false, not, ◌&&◌, ◌||◌, Option, none, some, List, [], ◌∷◌, ◌++◌,
  ◌==◌, if◌then◌else◌, Str, codes, str_eq, is_empty, length, get_elem?,
}
use skivvy.Stream.{Stream, good, getline}
use skivvy.Bot.Text.{to_string}
use skivvy.Utils.{read_number}

pub record Question : Type 0 where
  pub q : Str
  pub a : List Str
  pub i : Str

abbrev pub is_info : Str → Bool
is_info [] = false
is_info (c ∷ s) = c == b'#'

-- `trim` of <skivvy/str.h>, which is no part of the repository, changes its argument.
module _ (trim : Str → Str) where
  -- The loop over the lines of a question.
  unfoldable pub question_loop : ℕ → Str → Question → Stream → Question × Stream
  question_loop zero line q is = (q, is)
  question_loop (suc fuel) line q is =
      let (l, is') = getline 10 line is in
      let line' = trim l in
      let q' =
        if is_info line' then record q { i = line' } else record q { a = q.a ++ line' ∷ [] } in
      let rest = question_loop fuel line' q' is' in
      if is'.fail then (q, is') else if is_empty line' then (q, is') else rest

  -- `is >> q`; each line takes a byte at least.
  unfoldable pub read_question : Stream → Question × Stream
  read_question is =
      let (l, is') = getline 10 [] is in
      question_loop (suc (suc (length is'.buf))) [] (record { q = l; a = []; i = [] }) is'

  -- `while(ifs >> q) questions.push_back(q);`
  unfoldable pub questions_loop : ℕ → Stream → List Question
  questions_loop zero is = []
  questions_loop (suc fuel) is =
      let (q, is') = read_question is in
      let rest = questions_loop fuel is' in if is'.fail then [] else q ∷ rest

  -- The questions of a file; one that cannot be opened has none.
  unfoldable pub read_questions : Option Str → List Question
  read_questions none = []
  read_questions (some text) = questions_loop (suc (length text)) (good text)

pub record Quiz : Type 0 where
  pub questions : List Question
  pub totals : List (Str × ℕ)
  -- where `current_question` stands
  pub current : ℕ
  pub accepting_answers : Bool
  pub answer_found : Bool
  pub answers : List ℕ
  pub answered : List Str
  -- whether the thread of the last question has not ended
  pub pending : Bool
  -- the replies
  pub out : List Str

abbrev pub new_quiz : Quiz
new_quiz = record {
  questions = [];
  totals = [];
  current = 0;
  accepting_answers = false;
  answer_found = false;
  answers = [];
  answered = [];
  pending = false;
  out = [];
}

abbrev pub replies : Str → Quiz → Quiz
replies text s = record s { out = s.out ++ text ∷ [] }

-- `q_open`, with the questions of the file in the order that the shuffle gives them
unfoldable pub q_open : List Question → Quiz → Quiz
q_open shuffled s = record s { questions = shuffled; current = 0 }

-- `q_end` behind its sleep
unfoldable pub q_end : Quiz → Quiz
q_end s =
    let s' = record s { accepting_answers = false; pending = false } in
    if s.answer_found then s' else replies (codes "Time UP!!") s'

abbrev pub is_right : Str → Bool
is_right [] = false
is_right (c ∷ a) = c == b'*'

abbrev pub shown_answer : Str → Str
shown_answer [] = []
shown_answer (c ∷ a) = if c == b'*' then a else c ∷ a

-- The loop over the answers, `n` of which have a number.
unfoldable pub list_answers : ℕ → List Str → Quiz → Quiz
list_answers n [] s = s
list_answers n (a ∷ as') s =
    let m = suc n in
    let s1 = if is_right a then record s { answers = s.answers ++ m ∷ [] } else s in
    let text = b'[' ∷ (to_string m ++ codes "] " ++ shown_answer a) in
    if is_empty a then list_answers n as' s else list_answers m as' (replies text s1)

-- What follows the answers: the wait for the thread of the question before, and a new one.
unfoldable pub start_question : Quiz → Quiz
start_question s =
    let s1 = if s.pending then q_end s else s in
    record s1 {
      answered = [];
      answer_found = false;
      accepting_answers = true;
      pending = true;
      current = suc s1.current;
    }

-- `q_ask`; `none` stands for a read through an iterator that is behind the end, which `q_close`
-- leaves.
unfoldable pub q_ask : Quiz → Option Quiz
q_ask s =
    if s.accepting_answers
    then some (replies (codes "Question in progress.") s)
    else if s.current == length s.questions
    then some (replies (codes "First you must use !q_open to load the questions.") s)
    else elim (get_elem? s.questions s.current) [
      | none ↦ none
      | some q ↦
          some (start_question (list_answers 0 q.a (record (replies q.q s) { answers = [] })))
    ]

unfoldable pub q_close : Quiz → Quiz
q_close s = record s { questions = [] }

-- `++totals[nick]`
unfoldable pub add_point : Str → List (Str × ℕ) → List (Str × ℕ)
add_point nick [] = (nick, 1) ∷ []
add_point nick ((k, n) ∷ m) =
    let rest = add_point nick m in if str_eq k nick then (k, suc n) ∷ m else (k, n) ∷ rest

-- `totals[nick]`
unfoldable pub total : Str → List (Str × ℕ) → ℕ
total nick [] = 0
total nick ((k, n) ∷ m) = let rest = total nick m in if str_eq k nick then n else rest

unfoldable pub has_answered : Str → List Str → Bool
has_answered nick [] = false
has_answered nick (k ∷ ks) = str_eq k nick || has_answered nick ks

unfoldable pub is_answer : ℕ → List ℕ → Bool
is_answer n [] = false
is_answer n (m ∷ ms) = m == n || is_answer n ms

-- `event` for a number while answers are accepted
unfoldable pub answer : Str → ℕ → Quiz → Quiz
answer nick n s =
    let totals' = add_point nick s.totals in
    let right =
      nick
      ++ codes " has the right answer!"
      ++ codes " Total: "
      ++ to_string (total nick totals')
      ++ codes " points." in
    let s1 =
      if has_answered nick s.answered
      then replies (nick ++ codes ": You only get one try.") s
      else if is_answer n s.answers
      then replies right
          (record s { answer_found = true; accepting_answers = false; totals = totals' })
      else s in
    record s1 { answered = s1.answered ++ nick ∷ [] }

abbrev pub heard_as : Str → Option ℕ → Quiz → Quiz
heard_as nick none s = s
heard_as nick (some n) s = answer nick n s

unfoldable pub event : Str → Str → Str → Quiz → Quiz
event cmd nick text s =
    if str_eq cmd (codes "PRIVMSG")
    then if s.accepting_answers then heard_as nick (read_number text) s else s
    else s

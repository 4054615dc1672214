-- ===== src/Trivial/Tests.antt =====
-- Tests of src/plugin-trivial.cpp.
use skivvy.Base.{◌≡◌, refl, some, none, Option, ℕ, List, [], ◌∷◌, Str, codes, arith, inl, inr}
use skivvy.Bot.Text.{to_string, digits}
use skivvy.Utils.{read_number}
use skivvy.Trivial.{
  Question, Quiz, new_quiz, q_open, q_end, list_answers, start_question, q_ask, q_close, add_point,
  total, has_answered, is_answer, answer, event, read_questions,
}
use skivvy.Trivial.Fair.{Op, opens, asks, ends, closes, hears, step, run, asked, IsFair}
use skivvy.Trivial.Points.{run-IsCareful}
use skivvy.Trivial.File.{open_text, questions_text, IsQuestion, read_questions-text}

abbrev capital : Question
capital = record { q = codes "Capital of France?"; a = codes "Rome" ∷ codes "*Paris" ∷ []; i = [] }

abbrev river : Question
river = record { q = codes "Longest river?"; a = codes "*Nile" ∷ []; i = codes "#geo" }

abbrev evening : List Op
evening =
    opens (capital ∷ river ∷ [])
    ∷ asks
    ∷ hears (codes "PRIVMSG") (codes "zim") (codes "1")
    ∷ hears (codes "PRIVMSG") (codes "zim") (codes "2")
    ∷ hears (codes "PRIVMSG") (codes "gir") (codes "2")
    ∷ hears (codes "PRIVMSG") (codes "dib") (codes "2")
    ∷ asks
    ∷ ends
    ∷ []

run-IsCareful_example : (t : Quiz) × (run new_quiz evening ≡ some t) × IsFair (asked evening) t
run-IsCareful_example = run-IsCareful evening (refl, (refl, tt))

abbrev totals_of : Option Quiz → List (Str × ℕ)
totals_of none = []
totals_of (some s) = s.totals

-- The second try of one user does not count, and a second right answer comes too late.
evening_test : totals_of (run new_quiz evening) ≡ (codes "gir", 1) ∷ []
unfolding run step q_open q_ask list_answers start_question q_end event answer has_answered
    is_answer add_point total read_number to_string digits
evening_test = refl

capital-IsQuestion : IsQuestion (λ s. s) refl capital
capital-IsQuestion = record {
  first_line = omega arith;
  answer_lines = (((omega arith, refl, refl), refl), (((omega arith, refl, refl), refl), tt));
  info_line = inl refl;
}

river-IsQuestion : IsQuestion (λ s. s) refl river
river-IsQuestion = record {
  first_line = omega arith;
  answer_lines = (((omega arith, refl, refl), refl), tt);
  info_line = inr ((omega arith, refl, refl), refl);
}

read_questions-text_example :
    (read_questions (λ s. s) (some (questions_text (river ∷ capital ∷ []) []))
      ≡ river ∷ capital ∷ [])
    × (read_questions (λ s. s) (some (questions_text (river ∷ capital ∷ []) (open_text capital [])))
        ≡ river ∷ capital ∷ [])
read_questions-text_example =
    read_questions-text (λ s. s) refl (river ∷ capital ∷ []) capital
      (river-IsQuestion, (capital-IsQuestion, tt)) capital-IsQuestion

-- Closing the questions leaves the iterator where it was.
closed_test : run new_quiz (opens (capital ∷ river ∷ []) ∷ asks ∷ ends ∷ closes ∷ asks ∷ []) ≡ none
unfolding run step q_open q_ask list_answers start_question q_end q_close to_string digits
closed_test = refl

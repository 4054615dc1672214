-- ===== src/Trivial/File.antt =====
-- The file of questions, src/plugin-trivial.cpp: theorem.
use skivvy.Base.{
  ℕ, zero, suc, ◌+◌, ◌-◌, ◌≤◌, true, false, ◌≡◌, refl, ap, subst, ◌∙◌, inl, inr, ◌⊎◌, some, List,
  [], ◌∷◌, ◌++◌, append_assoc, append-nil, arith, Str, is_empty, length, length-append, All, Lacks,
  if◌then◌else◌,
}
use skivvy.Stream.{Stream, good, at_end, getline}
use skivvy.Stream.Laws.{getline_cut}
use skivvy.Trivial.{Question, is_info, question_loop, read_question, questions_loop, read_questions}

-- The lines of a question behind its first; `i` is left out where it is empty.
abbrev pub answers_text : List Str → Str → Str
answers_text [] rest = rest
answers_text (a ∷ more) rest = a ++ 10 ∷ answers_text more rest

abbrev pub info_text : Str → Str → Str
info_text [] rest = rest
info_text (c ∷ i) rest = (c ∷ i) ++ 10 ∷ rest

-- A question up to what ends it.
abbrev pub open_text : Question → Str → Str
open_text q rest = q.q ++ 10 ∷ answers_text q.a (info_text q.i rest)

-- A blank line ends a question.
abbrev pub questions_text : List Question → Str → Str
questions_text [] rest = rest
questions_text (q ∷ qs) rest = open_text q (10 ∷ questions_text qs rest)

length-answers_text : (more : List Str) (rest : Str) → length more ≤ length (answers_text more rest)
length-answers_text [] rest = omega arith
length-answers_text (a ∷ more) rest =
    omega (arith, length-answers_text more rest, length-append {0} a (10 ∷ answers_text more rest))

info-le : (i rest : Str) → length rest ≤ length (info_text i rest)
info-le [] rest = omega arith
info-le (c ∷ i) rest = omega (arith, length-append {0} i (10 ∷ rest))

answers-le : (more : List Str) (rest : Str) → length rest ≤ length (answers_text more rest)
answers-le [] rest = omega arith
answers-le (a ∷ more) rest =
    omega (arith, answers-le more rest, length-append {0} a (10 ∷ answers_text more rest))

length-questions_text :
    (qs : List Question) (rest : Str) → length qs ≤ length (questions_text qs rest)
length-questions_text [] rest = omega arith
length-questions_text (q ∷ qs) rest =
    let tail = 10 ∷ questions_text qs rest in
    omega (
      arith,
      length-questions_text qs rest,
      info-le q.i tail,
      answers-le q.a (info_text q.i tail),
      length-append {0} q.q (10 ∷ answers_text q.a (info_text q.i tail)),
    )

-- The last line that was read.
last_of : Str → List Str → Str
last_of line [] = line
last_of line (a ∷ more) = last_of a more

module _ (trim : Str → Str) (nothing : trim [] ≡ []) where
  -- A line that trimming leaves as it is, and that is not empty.
  abbrev pub IsLine : Str → Type 0
  IsLine s = Lacks 10 s × (trim s ≡ s) × (is_empty s ≡ false)

  pub record IsQuestion (q : Question) : Type 0 where
    pub first_line : Lacks 10 q.q
    pub answer_lines : All (λ (a : Str). IsLine a × (is_info a ≡ false)) q.a
    pub info_line : (q.i ≡ []) ⊎ (IsLine q.i × (is_info q.i ≡ true))

  answer_round :
      (fuel : ℕ) (line a rest : Str) (q : Question)
      → IsLine a
      → is_info a ≡ false
      → question_loop trim (suc fuel) line q (good (a ++ 10 ∷ rest))
        ≡ question_loop trim fuel a (record q { a = q.a ++ a ∷ [] }) (good rest)
  unfolding question_loop
  answer_round fuel line a rest q (l, t, e) s = rw (getline_cut 10 line a rest l, t, s, e) refl

  info_round :
      (fuel : ℕ) (line i rest : Str) (q : Question)
      → IsLine i
      → is_info i ≡ true
      → question_loop trim (suc fuel) line q (good (i ++ 10 ∷ rest))
        ≡ question_loop trim fuel i (record q { i = i }) (good rest)
  unfolding question_loop
  info_round fuel line i rest q (l, t, e) s = rw (getline_cut 10 line i rest l, t, s, e) refl

  blank_round :
      (fuel : ℕ) (line rest : Str) (q : Question)
      → question_loop trim (suc fuel) line q (good (10 ∷ rest)) ≡ (q, good rest)
  unfolding question_loop
  blank_round fuel line rest q = rw (getline_cut 10 line [] rest tt, nothing) refl

  end_round :
      (fuel : ℕ) (line : Str) (q : Question)
      → question_loop trim (suc fuel) line q (good []) ≡ (q, at_end true)
  unfolding question_loop getline
  end_round fuel line q = refl

  answers-loop :
      (more : List Str) (fuel n : ℕ) (line rest : Str) (q : Question)
      → All (λ (a : Str). IsLine a × (is_info a ≡ false)) more
      → length more + n ≡ fuel
      → question_loop trim fuel line q (good (answers_text more rest))
        ≡ question_loop trim n (last_of line more) (record q { a = q.a ++ more }) (good rest)
  unfolding last_of
  answers-loop [] fuel n line rest q h e =
      let f : fuel ≡ n = omega arith in rw (f, append-nil q.a) refl
  answers-loop (a ∷ more) zero n line rest q h e = absurd (omega arith)
  answers-loop (a ∷ more) (suc fuel) n line rest q ((l, s), h) e =
      answer_round fuel line a (answers_text more rest) q l s
      ∙ answers-loop more fuel n a rest (record q { a = q.a ++ a ∷ [] }) h (omega arith)
      ∙ ap
          (λ (as' : List Str).
            question_loop trim n (last_of a more) (record q { a = as' }) (good rest))
          (append_assoc q.a (a ∷ []) more)

  -- What the information of a question adds.
  info-loop :
      (i : Str) (n : ℕ) (line rest : Str) (q : Question)
      → (i ≡ []) ⊎ (IsLine i × (is_info i ≡ true))
      → q.i ≡ []
      → (m : ℕ) × (line' : Str) × (question_loop trim (suc (suc n)) line q (good (info_text i rest))
          ≡ question_loop trim (suc m) line' (record q { i = i }) (good rest))
  info-loop [] n line rest q h e = (
    suc n,
    line,
    ap (λ (x : Str). question_loop trim (suc (suc n)) line (record q { i = x }) (good rest)) e,
  )
  info-loop (c ∷ i) n line rest q (inl h) e = cc
  info-loop (c ∷ i) n line rest q (inr (l, s)) e =
      (n, c ∷ i, info_round (suc n) line (c ∷ i) rest q l s)

  -- A question that a blank line ends is read whole; one that the file ends is not read.
  body :
      (q : Question) (rest : Str)
      → IsQuestion q
      → (m : ℕ) × (line : Str) × (read_question trim (good (open_text q rest))
          ≡ question_loop trim (suc m) line q (good rest))
  unfolding read_question
  body q rest h =
      let text = answers_text q.a (info_text q.i rest) in
      let n = length text - length q.a in
      let enough : length q.a + suc (suc n) ≡ suc (suc (length text)) =
        omega (arith, length-answers_text q.a (info_text q.i rest)) in
      let start : Question = record { q = q.q; a = q.a; i = [] } in
      let (m, line, e) = info-loop q.i n (last_of [] q.a) rest start h.info_line refl in
      (
        m,
        line,
        rw (getline_cut 10 [] q.q text h.first_line) (
              answers-loop q.a (suc (suc (length text))) (suc (suc n)) [] (info_text q.i rest)
                (record { q = q.q; a = []; i = [] }) h.answer_lines enough)
            ∙ e,
      )

  whole-question :
      (q : Question) (rest : Str)
      → IsQuestion q
      → read_question trim (good (open_text q (10 ∷ rest))) ≡ (q, good rest)
  whole-question q rest h = let (m, line, e) = body q (10 ∷ rest) h in e ∙ blank_round m line rest q

  open-question :
      (q : Question) → IsQuestion q → read_question trim (good (open_text q [])) ≡ (q, at_end true)
  open-question q h = let (m, line, e) = body q [] h in e ∙ end_round m line q

  nothing-read : (fuel : ℕ) → questions_loop trim (suc fuel) (good []) ≡ []
  unfolding questions_loop read_question question_loop getline
  nothing-read fuel = refl

  questions_round :
      (fuel : ℕ) (is : Stream) (p : Question × Stream)
      → read_question trim is ≡ p
      → questions_loop trim (suc fuel) is
        ≡ (if p.1.fail then [] else p.0 ∷ questions_loop trim fuel p.1)
  unfolding questions_loop
  questions_round fuel is p e =
      ap (λ (p : Question × Stream). if p.1.fail then [] else p.0 ∷ questions_loop trim fuel p.1) e

  questions_loop-text :
      (qs : List Question) (fuel : ℕ) (rest : Str)
      → All IsQuestion qs
      → (questions_loop trim (suc fuel) (good rest) ≡ [])
      → questions_loop trim (length qs + suc fuel) (good (questions_text qs rest)) ≡ qs
  questions_loop-text [] fuel rest h e =
      subst (λ (n : ℕ). questions_loop trim n (good rest) ≡ []) (omega arith) e
  questions_loop-text (q ∷ qs) fuel rest (h, hs) e =
      let n : suc (length qs) + suc fuel ≡ suc (length qs + suc fuel) = omega arith in
      ap (λ (k : ℕ). questions_loop trim k (good (questions_text (q ∷ qs) rest))) n
      ∙ questions_round (length qs + suc fuel) _ _ (whole-question q (questions_text qs rest) h)
      ∙ ap (λ (l : List Question). q ∷ l) (questions_loop-text qs fuel rest hs e)

  -- The fuel of the loop is enough.
  enough :
      (qs : List Question) (rest : Str)
      → All IsQuestion qs
      → ((fuel : ℕ) → questions_loop trim (suc fuel) (good rest) ≡ [])
      → questions_loop trim (suc (length (questions_text qs rest))) (good (questions_text qs rest))
        ≡ qs
  enough qs rest hs e =
      let text = questions_text qs rest in
      let n : suc (length text) ≡ length qs + suc (length text - length qs) =
        omega (arith, length-questions_text qs rest) in
      ap (λ (k : ℕ). questions_loop trim k (good text)) n
      ∙ questions_loop-text qs (length text - length qs) rest hs (e (length text - length qs))

  -- A file of questions, each ended by a blank line, is read back. A last question that no blank line
  -- ends is left out, whatever it is.
  pub read_questions-text :
      (qs : List Question) (q : Question)
      → All IsQuestion qs
      → IsQuestion q
      → (read_questions trim (some (questions_text qs [])) ≡ qs)
        × (read_questions trim (some (questions_text qs (open_text q []))) ≡ qs)
  unfolding read_questions
  read_questions-text qs q hs h = (
    enough qs [] hs (λ fuel. nothing-read fuel),
    enough qs (open_text q []) hs (λ fuel. questions_round fuel _ _ (open-question q h)),
  )

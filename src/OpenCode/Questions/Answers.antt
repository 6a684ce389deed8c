-- ===== src/OpenCode/Questions/Answers.antt =====
-- src/opencode.rs: what an accepted reply to a question is.
use caroba_guard.Prelude.{
  ℕ, ◌+◌, ◌≤◌, ◌≡◌, refl, Bool, true, false, not, ◌&&◌, ◌||◌, List, [], ◌∷◌, arith, ltb, ◌==◌,
  length, All, Chars, utf8_length,
}
use caroba_guard.Error.{ok, bad_request, reject_if, >>=-eq-ok, ApiError}
use caroba_guard.OpenCode.Questions.{
  invalid_answer, is_unusable, is_option, check_values, is_malformed, check_answers,
  validate_question_reply, QuestionInfo, PendingQuestion, QuestionReplyRequest,
}

-- One answer to one question: of the right number of values, each usable and, where the question is
-- not open, one of its options.
abbrev pub Fits : QuestionInfo → List Chars → Type 0
Fits info answer =
    (1 ≤ length answer)
    × (length answer ≤ 20)
    × ((info.multiple || length answer == 1) ≡ true)
    × All (λ (v : Chars). (is_unusable v ≡ false) × ((info.custom || is_option info v) ≡ true))
        answer

abbrev pub Match : List (List Chars) → List QuestionInfo → Type 0
Match [] [] = Unit
Match (answer ∷ answers) (info ∷ infos) = Fits info answer × Match answers infos
Match _ _ = ⊥

abbrev pub bytes_of : List Chars → ℕ
bytes_of [] = 0
bytes_of (v ∷ values) = utf8_length v + bytes_of values

abbrev pub total_bytes : List (List Chars) → ℕ
total_bytes [] = 0
total_bytes (answer ∷ answers) = bytes_of answer + total_bytes answers

passed : (b : Bool) (e : ApiError) {u : Unit {0}} → reject_if b e ≡ ok u → b ≡ false
passed true e h = cc
passed false e h = refl

either : (a b : Bool) → (not a && not b) ≡ false → (a || b) ≡ true
either true b h = refl
either false true h = refl
either false false h = cc

check_values-ok :
    (info : QuestionInfo) (values : List Chars) (total : ℕ) {after : ℕ}
    → check_values info values total ≡ ok after
    → All
        (λ (v : Chars). (is_unusable v ≡ false) × ((info.custom || is_option info v) ≡ true))
        values
      × (after ≡ total + bytes_of values)
unfolding check_values
check_values-ok info [] total {after} h = let same : total ≡ after = cc h in (tt, omega arith)
check_values-ok info (v ∷ values) total {after} h =
    let r1 = >>=-eq-ok (reject_if (is_unusable v) invalid_answer) _ h in
    let r2 =
      >>=-eq-ok
        (reject_if (not info.custom && not (is_option info v))
          (bad_request "OpenCode question answer is not an available option"))
        _ r1.2 in
    let rest = check_values-ok info values (total + utf8_length v) r2.2 in
    (
      ((passed _ _ r1.1, either info.custom (is_option info v) (passed _ _ r2.1)), rest.0),
      omega (arith, rest.1),
    )

well_formed :
    (info : QuestionInfo) (answer : List Chars)
    → is_malformed info answer ≡ false
    → (1 ≤ length answer) × (length answer ≤ 20) × ((info.multiple || length answer == 1) ≡ true)
well_formed info answer h = ground arith

check_answers-ok :
    (answers : List (List Chars)) (infos : List QuestionInfo) (total : ℕ) {after : ℕ}
    → length answers ≡ length infos
    → check_answers answers infos total ≡ ok after
    → Match answers infos × (after ≡ total + total_bytes answers)
unfolding check_answers
check_answers-ok [] [] total {after} e h = let same : total ≡ after = cc h in (tt, omega arith)
check_answers-ok [] (info ∷ infos) total e h = absurd (omega arith)
check_answers-ok (answer ∷ answers) [] total e h = absurd (omega arith)
check_answers-ok (answer ∷ answers) (info ∷ infos) total {after} e h =
    let r1 = >>=-eq-ok (reject_if (is_malformed info answer) invalid_answer) _ h in
    let r2 = >>=-eq-ok (check_values info answer total) _ r1.2 in
    let f = well_formed info answer (passed _ _ r1.1) in
    let values = check_values-ok info answer total r2.1 in
    let rest = check_answers-ok answers infos r2.0 (omega arith) r2.2 in
    (((f.0, f.1, f.2, values.0), rest.0), omega (arith, rest.1, values.1))

-- A reply that is accepted and is no rejection answers every question: with one value, or with up to
-- twenty where several are allowed, none of them blank, too long or with a NUL, each an option of
-- the question unless it is open, and with 32000 bytes at most in all.
pub validate_question_reply-ok :
    (question : PendingQuestion) (request : QuestionReplyRequest)
    → request.reject ≡ false
    → validate_question_reply question request ≡ ok tt
    → Match request.answers question.questions × (total_bytes request.answers ≤ 32000)
unfolding validate_question_reply
validate_question_reply-ok question request r h =
    let r1 =
      >>=-eq-ok
        (reject_if (not (length request.answers == length question.questions))
          (bad_request "one answer is required for every OpenCode question"))
        _ (rw r at h) in
    let same : length request.answers ≡ length question.questions =
      equal (length request.answers) (length question.questions) (passed _ _ r1.1) in
    let r2 = >>=-eq-ok (check_answers request.answers question.questions 0) _ r1.2 in
    let found = check_answers-ok request.answers question.questions 0 same r2.1 in
    (found.0, small r2.0 (total_bytes request.answers) found.1 (passed _ _ r2.2))
  where
    equal : (a b : ℕ) → not (a == b) ≡ false → a ≡ b
    equal a b e = ground arith

    small : (after total : ℕ) → after ≡ 0 + total → ltb 32000 after ≡ false → total ≤ 32000
    small after total e f = ground arith

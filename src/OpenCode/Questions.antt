-- ===== src/OpenCode/Questions.antt =====
-- src/opencode.rs: the questions that the agent asks, and the answers that are sent back. A text is the
-- list of its code points; a question is read by `serde`, from JSON that is not modelled.
pub mod Answers
use caroba_guard.Prelude.{
  ℕ, ◌+◌, Bool, not, ◌&&◌, ◌||◌, Option, none, some, List, [], ◌∷◌, ltb, leb, ◌==◌, if◌then◌else◌,
  length, any, all, Bytes, codes, bytes_eq, is_alphanumeric, starts_with, Chars, utf8_length,
  trim_chars,
}
use caroba_guard.Error.{ok, bad_request, ◌>>=◌, ◌>>◌, reject_if, ApiError, ApiResult}

pub record QuestionOption : Type 0 where
  pub label : Chars
  pub description : Chars

pub record QuestionInfo : Type 0 where
  pub question : Chars
  pub header : Chars
  pub options : List QuestionOption
  pub multiple : Bool
  pub custom : Bool

pub record PendingQuestion : Type 0 where
  pub id : Chars
  pub session_id : Chars
  pub questions : List QuestionInfo

pub record QuestionReplyRequest : Type 0 where
  pub answers : List (List Chars)
  pub reject : Bool

-- The bytes of an identifier that passes are all ASCII, so that they are its code points.
pub valid_remote_id : Chars → Bytes → Bool
valid_remote_id id prefix =
    starts_with prefix id
    && leb (utf8_length id) 128
    && all (λ c. is_alphanumeric c || c == b'_') id

abbrev pub is_supported_option : QuestionOption → Bool
is_supported_option o =
    not (utf8_length o.label == 0)
    && leb (utf8_length o.label) 1024
    && leb (utf8_length o.description) 4096

abbrev pub is_supported_question : QuestionInfo → Bool
is_supported_question q =
    not (utf8_length q.question == 0)
    && leb (utf8_length q.question) 4096
    && leb (utf8_length q.header) 256
    && leb (length q.options) 20
    && (q.custom || not (length q.options == 0))
    && all is_supported_option q.options

abbrev pub is_supported_request : PendingQuestion → Bool
is_supported_request request =
    valid_remote_id request.id (codes "que")
    && valid_remote_id request.session_id (codes "ses")
    && leb 1 (length request.questions)
    && leb (length request.questions) 10
    && all is_supported_question request.questions

-- `parse_pending_questions` after `serde`; every failed `ensure!` is the same to the caller.
unfoldable pub parse_pending_questions : List PendingQuestion → Option (List PendingQuestion)
unfolding valid_remote_id
parse_pending_questions questions =
    if leb (length questions) 32 && all is_supported_request questions then some questions else none

abbrev pub invalid_answer : ApiError
invalid_answer = bad_request "invalid OpenCode question answer"

abbrev pub is_unusable : Chars → Bool
is_unusable value =
    length (trim_chars value) == 0 || ltb 4096 (utf8_length value) || any (λ c. c == 0) value

abbrev pub is_option : QuestionInfo → Chars → Bool
is_option info value = any (λ o. bytes_eq o.label value) info.options

-- The loop over the values of an answer, and the loop over the answers, with the bytes so far.
pub check_values : QuestionInfo → List Chars → ℕ → ApiResult ℕ
check_values info [] total = ok total
check_values info (value ∷ values) total =
    let rest = check_values info values (total + utf8_length value) in
    do
      reject_if (is_unusable value) invalid_answer
      reject_if (not info.custom && not (is_option info value))
          (bad_request "OpenCode question answer is not an available option")
      rest

abbrev pub is_malformed : QuestionInfo → List Chars → Bool
is_malformed info answer =
    length answer == 0 || (not info.multiple && not (length answer == 1)) || ltb 20 (length answer)

pub check_answers : List (List Chars) → List QuestionInfo → ℕ → ApiResult ℕ
unfolding check_values
check_answers [] infos total = ok total
check_answers (answer ∷ answers) [] total = ok total
check_answers (answer ∷ answers) (info ∷ infos) total = do
  reject_if (is_malformed info answer) invalid_answer
  so_far ← check_values info answer total
  check_answers answers infos so_far

unfoldable pub validate_question_reply :
    PendingQuestion → QuestionReplyRequest → ApiResult (Unit {0})
unfolding check_answers
validate_question_reply question request =
    if request.reject
    then reject_if (not (length request.answers == 0))
        (bad_request "rejected questions cannot include answers")
    else (do
      reject_if (not (length request.answers == length question.questions))
          (bad_request "one answer is required for every OpenCode question")
      total ← check_answers request.answers question.questions 0
      reject_if (ltb 32000 total) (bad_request "OpenCode question answers are too large"))

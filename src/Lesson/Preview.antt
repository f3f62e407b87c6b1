-- ===== src/Lesson/Preview.antt =====
-- What a preview of the lesson sends and how it scores the answers (the preview of `runSubmit`).
pub mod Score
use bachelor_thesis.Prelude.{
  ℕ, ◌+◌, String, Bool, true, false, ◌&&◌, not, Option, none, some, List, [], ◌∷◌, if◌then◌else◌,
  is_some, get_or, get,
}
use bachelor_thesis.Interaction.Proto.{InteractionKind, LessonInteraction}
use bachelor_thesis.Interaction.Types.{Config, Response, Grade}
use bachelor_thesis.Interaction.Attempt.{AttemptResponseInput, build_attempt_response_input}
use bachelor_thesis.Interaction.Registry.{extract_config}
use bachelor_thesis.Interaction.Grading.{point, grade_local}
use bachelor_thesis.Lesson.State.{QuizResponse, QuizResult, Flight, LessonState}

abbrev is_reading : InteractionKind → Bool
is_reading InteractionKind.reading = true
is_reading _ = false

-- The recordings that a preview sends to be graded: those with an answer and no draft grade.
abbrev wants_grade : Flight → LessonInteraction → Bool
wants_grade f it =
    not (is_some (get f.draft_grades it.id))
    && is_reading it.kind
    && is_some (get f.responses it.id)

unfoldable pub preview_calls : Flight → List LessonInteraction → List AttemptResponseInput
unfolding get build_attempt_response_input
preview_calls f [] = []
preview_calls f (it ∷ its) =
    let rest = preview_calls f its in
    if wants_grade f it
    then build_attempt_response_input it (get f.responses it.id) none ∷ rest
    else rest

abbrev preview_note : String
preview_note =
    "Chế độ xem thử chưa chấm tự động phần ghi âm này. Khi học viên nộp bài thật, hệ thống sẽ chấm AI và hiển thị phiên âm cùng nhận xét tại đây."

abbrev scored : LessonInteraction → Option Response → Grade → QuizResponse
scored it response g = record {
  interaction_id = it.id;
  response = response;
  score = g.score;
  max_score = g.max_score;
  feedback = g.feedback;
}

abbrev pub no_grade : Option String → Grade
no_grade feedback = record { score = 0; max_score = point; feedback = feedback }

-- The answer of the grading call, `none` where it was rejected.
abbrev pub called : Option Grade → Grade
called none = no_grade (some preview_note)
called (some g) = g

graded_by : (String → String) → InteractionKind → Option Config → Response → Grade
graded_by lower kind none r = no_grade none
graded_by lower kind (some cfg) r = get_or (grade_local lower kind cfg r) (no_grade none)

local_grade : (String → String) → LessonInteraction → Option Response → Grade
unfolding extract_config graded_by
local_grade lower it none = no_grade none
local_grade lower it (some r) = graded_by lower it.kind (extract_config it) r

-- How a preview scores one interaction.
unfoldable pub preview_grade :
    (String → String) → List (String × Grade) → Flight → LessonInteraction → Grade
unfolding local_grade get
preview_grade lower calls f it = get_or (get f.draft_grades it.id) (
    if is_reading it.kind && is_some (get f.responses it.id)
    then called (get calls it.id)
    else local_grade lower it (get f.responses it.id))

preview_responses :
    (String → String) → List (String × Grade) → Flight → List LessonInteraction → List QuizResponse
unfolding preview_grade get
preview_responses lower calls f [] = []
preview_responses lower calls f (it ∷ its) =
    scored it (get f.responses it.id) (preview_grade lower calls f it)
    ∷ preview_responses lower calls f its

pub total_score : List QuizResponse → ℕ
total_score [] = 0
total_score (r ∷ rs) = r.score + total_score rs

pub total_max_score : List QuizResponse → ℕ
total_max_score [] = 0
total_max_score (r ∷ rs) = r.max_score + total_max_score rs

unfoldable pub preview_result : (String → String) → List (String × Grade) → Flight → QuizResult
unfolding preview_responses total_score total_max_score
preview_result lower calls f =
    let responses = preview_responses lower calls f f.interactions in
    record {
      total_score = total_score responses;
      max_score = total_max_score responses;
      attempt_count = f.attempt_count;
      responses = responses;
    }

unfoldable pub end_preview :
    (String → String) → List (String × Grade) → Option Flight → LessonState → LessonState
unfolding preview_result
end_preview lower calls none s = s
end_preview lower calls (some f) s = record s {
  result = some (preview_result lower calls f);
  preview_metrics = some (record {
    time_to_answer_ms = s.time_to_answer_ms;
    replay_counts = s.replay_counts;
    video_watch_fraction = f.watch_fraction;
  });
  submitted = true;
  flight = none;
}

-- The end of a preview's submission.
unfoldable pub finish_preview :
    (String → String) → List (String × Grade) → LessonState → LessonState
unfolding end_preview
finish_preview lower calls s = end_preview lower calls s.flight s

-- ===== src/Actions.antt =====
-- The server actions of a lesson: a call of the service whose failures are caught and returned
-- (lessons/[lessonId]/actions.ts).
use bachelor_thesis.Prelude.{String, Option, none, some, if◌then◌else◌}
use bachelor_thesis.Errors.{Failure, to_user_message}
use bachelor_thesis.Session.{Answer}
use bachelor_thesis.Session.Access.{UserSession}
use bachelor_thesis.Session.WebClient.{is_unauthenticated}

-- The answer of an action that has no data: it was done, or it was refused with a message.
pub data ActionResult : Type 0 where
  done : ActionResult
  refused : String → ActionResult

-- The failures that an action catches.
caught : String → Failure → ActionResult
unfolding to_user_message
caught fallback e =
    if is_unauthenticated e
    then refused "Phiên đăng nhập đã hết hạn"
    else refused (to_user_message e fallback)

result_of : {A : Type 0} → String → Answer A → ActionResult
unfolding caught
result_of fallback (Answer.ok a) = done
result_of fallback (Answer.failed e) = caught fallback e

-- `withAIClient`: a call of the service for the user of the session.
unfoldable pub with_ai_client :
    {A : Type 0} → (String → Answer A) → Option UserSession → ActionResult
unfolding result_of
with_ai_client call none = refused "Phiên đăng nhập đã hết hạn"
with_ai_client call (some session) = result_of "Không thể thao tác với máy chủ" (call session.token)

-- `withLessonClient`: the same for the service of lessons.
unfoldable pub with_lesson_client :
    {A : Type 0} → (String → Answer A) → Option UserSession → ActionResult
unfolding result_of
with_lesson_client call none = refused "Phiên đăng nhập đã hết hạn"
with_lesson_client call (some session) = result_of "Không thể cập nhật bài học" (call session.token)

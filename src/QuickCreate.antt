-- ===== src/QuickCreate.antt =====
-- The dialog that creates a lesson with its video and starts the whole pipeline
-- (components/dashboard/quick-create/QuickCreateLessonDialog.tsx).
pub mod Calls
pub mod Follows
pub mod Stages
use bachelor_thesis.Session.{Answer}
use bachelor_thesis.Interaction.Proto.{FeedbackMode}
use bachelor_thesis.Interaction.Quantity.{
  KindQuantities, empty_quantities, total_quantity, to_kinds_list,
}
use bachelor_thesis.Errors.{Failure}
use bachelor_thesis.Prelude.{
  trim, ℕ, String, Bool, ◌&&◌, ◌||◌, not, Option, none, some, List, if◌then◌else◌, is_some, get_or,
  is_empty, or_text, head,
}
use bachelor_thesis.QuickCreate.Calls.{
  creates, updates, updates_feedback, asks_url, puts, registers, starts, QuickEnd, form_error,
  dialog_error, Act, ◌>>=◌, ◌>>◌, give, guard, required, ask, send, note, allow,
}
use bachelor_thesis.Upload.{VideoFile, is_allowed_video, video_key, SendEnd, send_error}

pub record AdvancedConfig : Type 0 where
  pub difficulty : String
  pub focus_prompt : String
  pub quantities : KindQuantities
  pub max_attempts : ℕ
  pub feedback_mode : FeedbackMode

-- What the teacher has filled in.
pub record QuickForm : Type 0 where
  pub title : String
  pub description : String
  pub module_id : String
  pub video_file : Option VideoFile
  pub language : String
  pub audio_language : String
  pub config : AdvancedConfig

-- The form as the dialog opens, for the modules of the course.
unfoldable pub empty_form : List String → QuickForm
unfolding empty_quantities
empty_form modules = record {
  title = "";
  description = "";
  module_id = get_or (head modules) "";
  video_file = none;
  language = "vi";
  audio_language = "vi";
  config = record {
    difficulty = "medium";
    focus_prompt = "";
    quantities = empty_quantities;
    max_attempts = 0;
    feedback_mode = FeedbackMode.after_submit;
  };
}

-- `selectVideoFile`: the form, and the error that it shows.
unfoldable pub select_video_file : VideoFile → QuickForm → QuickForm × Option String
unfolding is_allowed_video
select_video_file file form =
    if is_allowed_video file.kind
    then (record form { video_file = some file }, none)
    else (form, some "Chỉ hỗ trợ tệp video (MP4, WebM, MOV, MKV...).")

pub record ExistingLesson : Type 0 where
  pub id : String
  pub title : String

unfoldable pub can_submit : Option ExistingLesson → QuickForm → Bool
unfolding trim
can_submit existing form =
    (is_some existing || not (is_empty (trim form.title)) && not (is_empty form.module_id))
    && is_some form.video_file

-- The answers to the calls, in their order, with the seconds that the file was found to last.
pub record QuickAnswers : Type 0 where
  pub created : Answer String
  pub updated : Option Failure
  pub feedback_updated : Option Failure
  pub version : String
  pub url : Answer String
  pub sent : SendEnd
  pub seconds : Option ℕ
  pub registered : Option Failure
  pub started : Option Failure

-- The message of a `ConnectError`, or the given one.
abbrev connect_message : String → Failure → String
connect_message fallback (Failure.connect code raw message cause) = message
connect_message fallback _ = fallback

abbrev upload_error : String → String → QuickEnd
upload_error lesson msg = dialog_error msg "UPLOAD" lesson

validate : Option ExistingLesson → QuickForm → Act VideoFile
unfolding trim
validate existing form = do
  guard (is_some existing || not (is_empty (trim form.title)))
      (form_error "Vui lòng nhập tiêu đề bài học.")
  file ← required form.video_file (form_error "Vui lòng chọn tệp video.")
  guard (is_some existing || not (is_empty form.module_id)) (form_error "Vui lòng chọn chương học.")
  give file

create_lesson : QuickForm → QuickAnswers → Act String
unfolding trim
create_lesson form env = do
  lesson ←
      ask
        (creates form.module_id (trim form.title) (trim form.description) form.config.max_attempts)
        (λ e. form_error (connect_message "Không thể tạo bài học." e)) env.created
  guard (not (is_empty lesson)) (form_error "Không thể tạo bài học.")
  give lesson

resolve_lesson : Option ExistingLesson → QuickForm → QuickAnswers → Act String
unfolding create_lesson
resolve_lesson none form env = create_lesson form env
resolve_lesson (some lesson) form env = give lesson.id

abbrev title_of : Option ExistingLesson → String → String
title_of none title = title
title_of (some lesson) title = lesson.title

abbrev not_saved : Failure → QuickEnd
not_saved e = form_error (connect_message "Không thể lưu cấu hình bài học." e)

save_settings : Option ExistingLesson → QuickForm → QuickAnswers → String → Act String
unfolding trim
save_settings existing form env lesson = do
  send
      (updates (record {
        id = lesson;
        title = title_of existing (trim form.title);
        description = trim form.description;
        order_index = 0;
        language = form.language;
        max_attempts = form.config.max_attempts;
        audio_language = form.audio_language;
      }))
      not_saved env.updated
  send (updates_feedback lesson form.config.feedback_mode) not_saved env.feedback_updated
  give lesson

upload_video : (ℕ → String) → VideoFile → QuickAnswers → String → Act String
unfolding video_key send_error
upload_video http file env lesson = do
  let key = video_key lesson env.version file
  let kind = or_text file.kind "video/mp4"
  url ←
      ask (asks_url lesson key kind)
        (λ e. upload_error lesson "Không lấy được đường dẫn tải lên. Kiểm tra kết nối lưu trữ.")
        env.url
  note (puts lesson url kind)
  allow (send_error http "Tải video quá thời gian." env.sent) (upload_error lesson)
  send (registers lesson key (get_or env.seconds 0))
      (λ e. upload_error lesson "Không thể lưu thông tin video.") env.registered
  give lesson

start_pipeline : QuickForm → QuickAnswers → String → Act String
unfolding to_kinds_list total_quantity
start_pipeline form env lesson = do
  send
      (starts lesson (to_kinds_list form.config.quantities) (total_quantity form.config.quantities)
        form.config.difficulty form.config.focus_prompt)
      (λ e.
        dialog_error (connect_message "Không thể bắt đầu quy trình AI." e) "PIPELINE_START" lesson)
      env.started
  give lesson

-- `handleSubmit`: the calls that are made, and how it ends: with an error, or with the lesson whose
-- processing is shown. `http` writes the message of a status.
unfoldable pub handle_submit :
    (ℕ → String) → Option ExistingLesson → QuickForm → QuickAnswers → Act String
unfolding validate resolve_lesson save_settings upload_video start_pipeline
handle_submit http existing form env = do
  file ← validate existing form
  created ← resolve_lesson existing form env
  saved ← save_settings existing form env created
  stored ← upload_video http file env saved
  start_pipeline form env stored

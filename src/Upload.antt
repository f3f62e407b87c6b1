-- ===== src/Upload.antt =====
-- The upload of a lesson's video (lessons/[lessonId]/video-upload.tsx), and its pieces that the quick
-- creation of a lesson has as well.
pub mod Stages
use bachelor_thesis.Session.{Answer}
use bachelor_thesis.Prelude.{
  begins, join_text, ℕ, String, Bool, true, false, ◌&&◌, ◌||◌, not, Option, none, some, List, [],
  ◌∷◌, str_eq, ltb, leb, ◌==◌, if◌then◌else◌, get_or, or_text,
}
use Prim.Native.Char.{code}
use bachelor_thesis.Errors.{Failure}

-- A file that was chosen: its name and its type.
pub record VideoFile : Type 0 where
  pub name : String
  pub kind : String

abbrev pub is_text : String → String → Bool
is_text t s = str_eq s t

unfoldable pub is_allowed_video : String → Bool
unfolding begins
is_allowed_video kind =
    begins "video/" kind
    && (is_text "video/mp4" kind
        || is_text "video/webm" kind
        || is_text "video/ogg" kind
        || is_text "video/quicktime" kind
        || is_text "video/x-msvideo" kind
        || is_text "video/x-matroska" kind)

has_dot : String → Bool
has_dot String.[] = false
has_dot (String.◌∷◌ c s) = code c == b'.' || has_dot s

-- `name.split(".").pop()`: what stands behind the last dot, or the whole name.
unfoldable pub extension : String → String
unfolding has_dot
extension String.[] = ""
extension (String.◌∷◌ c s) =
    let rest = extension s in if has_dot (String.◌∷◌ c s) then rest else String.◌∷◌ c s

-- The key under which the video is stored; `version` is the random part.
unfoldable pub video_key : String → String → VideoFile → String
unfolding extension join_text
video_key lesson version file = join_text "lessons/" (
    join_text lesson
      (join_text "/video/" (join_text version (join_text "." (extension file.name)))))

-- How sending the file ended: with a status, or by an error of the network, or too late.
pub data SendEnd : Type 0 where
  loaded : ℕ → SendEnd
  network_error timed_out : SendEnd

-- The message of a file that was not sent, `none` where it was; `late` is the message of a timeout.
unfoldable pub send_error : (ℕ → String) → String → SendEnd → Option String
send_error http late (loaded status) =
    if leb 200 status && ltb status 300 then none else some (http status)
send_error http late network_error = some "Lỗi mạng khi tải lên"
send_error http late timed_out = some late

-- The calls of an upload: each with its lesson or key.
pub data UploadCall : Type 0 where
  get_upload_url : String → String → UploadCall
  put_video : String → String → UploadCall
  update_lesson_video : String → String → ℕ → UploadCall

-- What the calls are answered, with the seconds that the file was found to last.
pub record UploadAnswers : Type 0 where
  pub version : String
  pub url : Answer String
  pub sent : SendEnd
  pub seconds : Option ℕ
  pub registered : Option Failure

pub record UploadState : Type 0 where
  pub progress : Option ℕ
  pub error : Option String
  pub done : Bool
  pub selected : Option VideoFile
  pub is_pending : Bool

register_video :
    UploadAnswers → Option Failure → String → String → UploadState → UploadState × List UploadCall
register_video env failure lesson key s = (
  elim failure [
    | none ↦ record s { progress = none; done = true; is_pending = false }
    | some e ↦ record s {
      error = some "Không thể cập nhật video bài học";
      progress = none;
      is_pending = false;
    }
  ],
  update_lesson_video lesson key (get_or env.seconds 0) ∷ [],
)

after_send :
    UploadAnswers → Option String → String → String → UploadState → UploadState × List UploadCall
unfolding register_video
after_send env none lesson key s = register_video env env.registered lesson key s
after_send env (some msg) lesson key s = (record s { error = some msg; progress = none }, [])

send_to :
    (ℕ → String)
    → UploadAnswers
    → Answer String
    → String
    → String
    → String
    → UploadState
    → UploadState × List UploadCall
unfolding send_error after_send
send_to http env (Answer.ok url) lesson key kind s =
    let late : String = "Tải video quá thời gian. Thử lại sau." in
    let (t, calls) = after_send env (send_error http late env.sent) lesson key s in
    (t, put_video url kind ∷ calls)
send_to http env (Answer.failed e) lesson key kind s = (
  record s {
    error = some "Không lấy được đường dẫn tải lên. Kiểm tra kết nối lưu trữ.";
    progress = none;
  },
  [],
)

-- `handleFile`, with the answers; `http` writes the message of a status.
unfoldable pub handle_file :
    (ℕ → String) → UploadAnswers → String → VideoFile → UploadState → UploadState × List UploadCall
unfolding is_allowed_video video_key send_to
handle_file http env lesson file s =
    let cleared = record s { error = none; done = false } in
    if not (is_allowed_video file.kind)
    then (record cleared { error = some "Chỉ hỗ trợ tệp video." }, [])
    else let key = video_key lesson env.version file in
      let kind = or_text file.kind "video/mp4" in
      let (t, calls) =
        send_to http env env.url lesson key kind
          (record cleared { selected = some file; progress = some 0 }) in
      (t, get_upload_url key kind ∷ calls)

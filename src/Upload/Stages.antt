-- ===== src/Upload/Stages.antt =====
-- How the upload of a video ends.
use bachelor_thesis.Prelude.{
  ℕ, String, ◌≡◌, refl, inl, inr, Bool, true, false, ◌&&◌, not, Option, none, some, arith,
  Bool-cases, is_some,
}
use bachelor_thesis.Errors.{Failure}
use bachelor_thesis.Session.{Answer}
use bachelor_thesis.Upload.{
  VideoFile, is_allowed_video, send_error, UploadAnswers, UploadState, register_video, after_send,
  send_to, handle_file,
}

abbrev pub is_url : Answer String → Bool
is_url (Answer.ok url) = true
is_url (Answer.failed e) = false

-- Whether the file may be sent and every call is answered well.
abbrev pub accepts : (ℕ → String) → UploadAnswers → VideoFile → Bool
accepts http env file =
    is_allowed_video file.kind
    && (is_url env.url
        && (not (is_some (send_error http "Tải video quá thời gian. Thử lại sau." env.sent))
            && not (is_some env.registered)))

-- How an upload ends: done, or with an error, and pending no more.
pub record Ended (b : Bool) (s : UploadState) : Type 0 where
  pub done : s.done ≡ b
  pub failed : is_some s.error ≡ not b
  pub settled : s.is_pending ≡ false

register_video-Ended :
    (env : UploadAnswers) (o : Option Failure) (lesson key : String) (s : UploadState)
    → s.error ≡ none
    → s.done ≡ false
    → s.is_pending ≡ false
    → Ended (not (is_some o)) (register_video env o lesson key s).0
unfolding register_video
register_video-Ended env none lesson key s e d p = ground arith
register_video-Ended env (some f) lesson key s e d p = ground arith

after_send-Ended :
    (env : UploadAnswers) (o : Option String) (lesson key : String) (s : UploadState)
    → s.error ≡ none
    → s.done ≡ false
    → s.is_pending ≡ false
    → Ended (not (is_some o) && not (is_some env.registered)) (after_send env o lesson key s).0
unfolding after_send
after_send-Ended env none lesson key s e d p =
    register_video-Ended env env.registered lesson key s e d p
after_send-Ended env (some msg) lesson key s e d p = ground arith

send_to-Ended :
    (http : ℕ → String) (env : UploadAnswers) (url : Answer String) (lesson key kind : String)
    (s : UploadState)
    → s.error ≡ none
    → s.done ≡ false
    → s.is_pending ≡ false
    → Ended
        (is_url url
          && (not (is_some (send_error http "Tải video quá thời gian. Thử lại sau." env.sent))
              && not (is_some env.registered)))
        (send_to http env url lesson key kind s).0
unfolding send_to
send_to-Ended http env (Answer.ok url) lesson key kind s e d p =
    after_send-Ended env _ lesson key s e d p
send_to-Ended http env (Answer.failed f) lesson key kind s e d p = ground arith

-- Whatever file is chosen and whatever the calls are answered, an upload ends either done or with an error
-- shown, and never both; it is done exactly where the file is a video of a known type, the address was
-- given, the file was sent, and the service took the video.
pub handle_file-Ended :
    (http : ℕ → String) (env : UploadAnswers) (lesson : String) (file : VideoFile) (s : UploadState)
    → s.is_pending ≡ false
    → Ended (accepts http env file) (handle_file http env lesson file s).0
unfolding handle_file
handle_file-Ended http env lesson file s p = elim (Bool-cases (is_allowed_video file.kind)) [
  | inl h ↦ rw h (send_to-Ended http env env.url lesson _ _ _ refl refl p)
  | inr h ↦ rw h (record { done = refl; failed = refl; settled = p })
]

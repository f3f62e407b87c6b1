-- ===== src/QuickCreate/Stages.antt =====
-- The order of the calls that create a lesson, against a plan.
use bachelor_thesis.Upload.{VideoFile, video_key, send_error}
use bachelor_thesis.Prelude.{
  trim, ℕ, String, refl, Bool, true, ◌&&◌, ◌||◌, not, Option, none, some, List, [], ◌∷◌, ◌++◌,
  is_some, get_or, is_empty, or_text,
}
use bachelor_thesis.QuickCreate.Calls.{puts, registers, Act, ◌>>=◌, give, send, note, allow}
use bachelor_thesis.QuickCreate.{
  QuickForm, ExistingLesson, QuickAnswers, upload_error, validate, resolve_lesson, save_settings,
  upload_video, start_pipeline, handle_submit,
}
use bachelor_thesis.QuickCreate.Follows.{
  Stage, creating, sending, saving, saving_feedback, asking_url, registering, starting, Follows,
  bind-Follows, guard-Follows, is_ok, or_default, ask-Follows, send-Follows, allow-Follows,
  required-Follows, note-Follows, send_last-Follows, guard_last-Follows,
}

start_pipeline-Follows :
    (form : QuickForm) (env : QuickAnswers) (id : String)
    → Follows (starting id ∷ []) (not (is_some env.started)) id (start_pipeline form env id)
unfolding start_pipeline
start_pipeline-Follows form env id = send_last-Follows _ _ env.started id

save_settings-Follows :
    (existing : Option ExistingLesson) (form : QuickForm) (env : QuickAnswers) (id : String)
    → Follows
        (saving id ∷ saving_feedback id ∷ [])
        (not (is_some env.updated) && not (is_some env.feedback_updated))
        id
        (save_settings existing form env id)
unfolding save_settings
save_settings-Follows existing form env id =
    bind-Follows (saving id ∷ []) (saving_feedback id ∷ []) _ _ tt id _ _
      (send-Follows _ _ env.updated) (send_last-Follows _ _ env.feedback_updated id)

-- Whether the file was sent and its video was registered.
abbrev pub stores : (ℕ → String) → QuickAnswers → Bool
stores http env =
    is_ok env.url
    && (true
        && (not (is_some (send_error http "Tải video quá thời gian." env.sent))
            && not (is_some env.registered)))

upload_video-Follows :
    (http : ℕ → String) (file : VideoFile) (env : QuickAnswers) (id : String)
    → Follows
        (asking_url id ∷ sending ∷ registering id ∷ [])
        (stores http env)
        id
        (upload_video http file env id)
unfolding upload_video
upload_video-Follows http file env id =
    let sent = send_error http "Tải video quá thời gian." env.sent in
    let url = or_default {A = String} "" env.url in
    let put = puts id url (or_text file.kind "video/mp4") in
    let stored = not (is_some env.registered) in
    let register : Act String =
      send (registers id (video_key id env.version file) (get_or env.seconds 0))
        (λ e. upload_error id "Không thể lưu thông tin video.") env.registered
      >>= λ _. give id in
    bind-Follows (asking_url id ∷ []) (sending ∷ registering id ∷ []) _ _ url id _ _
      (ask-Follows _ _ env.url "")
      (bind-Follows (sending ∷ []) (registering id ∷ []) true (not (is_some sent) && stored) tt id
        (note put) (λ _. allow sent (upload_error id) >>= λ _. register) (note-Follows put)
        (bind-Follows [] (registering id ∷ []) (not (is_some sent)) stored tt id
          (allow sent (upload_error id)) (λ _. register) (allow-Follows sent (upload_error id))
          (send_last-Follows (registers id (video_key id env.version file) (get_or env.seconds 0))
            (λ e. upload_error id "Không thể lưu thông tin video.") env.registered id)))

-- The lesson that the calls are about: the one that is there, or the one that was created.
abbrev pub lesson_of : Option ExistingLesson → QuickAnswers → String
lesson_of none env = or_default "" env.created
lesson_of (some lesson) env = lesson.id

abbrev pub resolves : Option ExistingLesson → QuickAnswers → Bool
resolves none env = is_ok env.created && not (is_empty (or_default "" env.created))
resolves (some lesson) env = true

abbrev pub first_stages : Option ExistingLesson → List Stage
first_stages none = creating ∷ []
first_stages (some lesson) = []

resolve_lesson-Follows :
    (existing : Option ExistingLesson) (form : QuickForm) (env : QuickAnswers)
    → Follows
        (first_stages existing)
        (resolves existing env)
        (lesson_of existing env)
        (resolve_lesson existing form env)
unfolding resolve_lesson
resolve_lesson-Follows none form env =
    bind-Follows (creating ∷ []) [] _ _ (or_default "" env.created) (or_default "" env.created) _ _
      (ask-Follows _ _ env.created "")
      (guard_last-Follows (not (is_empty (or_default "" env.created))) _ _)
resolve_lesson-Follows (some lesson) form env = (refl, refl, refl)

abbrev no_file : VideoFile
no_file = record { name = ""; kind = "" }

-- Whether the form may be sent.
abbrev pub is_complete : Option ExistingLesson → QuickForm → Bool
is_complete existing form =
    (is_some existing || not (is_empty (trim form.title)))
    && (is_some form.video_file && (is_some existing || not (is_empty form.module_id)))

validate-Follows :
    (existing : Option ExistingLesson) (form : QuickForm)
    → Follows []
        (is_complete existing form)
        (get_or form.video_file no_file)
        (validate existing form)
unfolding validate
validate-Follows existing form =
    bind-Follows [] [] _ _ tt _ _ _
      (guard-Follows (is_some existing || not (is_empty (trim form.title))) _)
      (bind-Follows [] [] _ _ (get_or form.video_file no_file) _ _ _
        (required-Follows form.video_file no_file _)
        (guard_last-Follows (is_some existing || not (is_empty form.module_id)) _ _))

-- The stages of a lesson that is new, or that is there already.
abbrev pub plan : Option ExistingLesson → String → List Stage
plan existing id =
    first_stages existing
    ++ (saving id
        ∷ saving_feedback id
        ∷ asking_url id
        ∷ sending
        ∷ registering id
        ∷ starting id
        ∷ [])

-- Whether the form may be sent and every call is answered well.
abbrev pub succeeds : (ℕ → String) → Option ExistingLesson → QuickForm → QuickAnswers → Bool
succeeds http existing form env =
    is_complete existing form
    && (resolves existing env
        && ((not (is_some env.updated) && not (is_some env.feedback_updated))
            && (stores http env && not (is_some env.started))))

-- Whatever is filled in and answered, the calls are the beginning of the plan, all about one lesson; the
-- dialog goes on to the processing of that lesson exactly where the form is complete and every call is
-- answered well, and then the whole plan was run.
pub handle_submit-Follows :
    (http : ℕ → String) (existing : Option ExistingLesson) (form : QuickForm) (env : QuickAnswers)
    → Follows
        (plan existing (lesson_of existing env))
        (succeeds http existing form env)
        (lesson_of existing env)
        (handle_submit http existing form env)
unfolding handle_submit
handle_submit-Follows http existing form env =
    let id = lesson_of existing env in
    bind-Follows [] (plan existing id) _ _ (get_or form.video_file no_file) id _ _
      (validate-Follows existing form)
      (bind-Follows (first_stages existing) _ _ _ id id _ _
        (resolve_lesson-Follows existing form env)
        (bind-Follows (saving id ∷ saving_feedback id ∷ []) _ _ _ id id _ _
          (save_settings-Follows existing form env id)
          (bind-Follows (asking_url id ∷ sending ∷ registering id ∷ []) (starting id ∷ []) _
            (not (is_some env.started)) id id _ (start_pipeline form env)
            (upload_video-Follows http (get_or form.video_file no_file) env id)
            (start_pipeline-Follows form env id))))

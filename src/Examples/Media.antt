-- ===== src/Examples/Media.antt =====
-- The player, the recorder, the upload of a video and the quick creation of a lesson, at concrete inputs.
use bachelor_thesis.Player.Steps.{PlayerEvent, paused_at, sought, player_step, player_run}
use bachelor_thesis.QuickCreate.Follows.{Stage, stage_of, Follows}
use bachelor_thesis.Examples.Lessons.{props, watched_state}
use bachelor_thesis.QuickCreate.Calls.{updates}
use bachelor_thesis.Player.Saving.{player_run-reported}
use bachelor_thesis.Player.Resuming.{SavesBefore, player_run-SavesBefore}
use bachelor_thesis.Player.Credit.{reported, played}
use bachelor_thesis.Lesson.State.{pending_checkpoints, max_savable_position}
use bachelor_thesis.Recorder.{
  Phase, Recorder, new_recorder, start_recording, mic_granted, failed, data_available,
  stop_recording, on_stop, upload, preview_fetched, RecorderStep, Reaches, here, next,
}
use bachelor_thesis.QuickCreate.{QuickForm, QuickAnswers, handle_submit}
use bachelor_thesis.Recorder.Sound.{IsSound, Reaches-IsSound, Reaches-failed}
use bachelor_thesis.QuickCreate.Stages.{plan, succeeds, handle_submit-Follows}
use bachelor_thesis.Prelude.{
  ℕ, ◌≤◌, String, ◌≡◌, refl, true, false, none, some, List, [], ◌∷◌, ◌++◌, map, arith, head, All,
}
use bachelor_thesis.Interaction.Proto.{FeedbackMode}
use bachelor_thesis.Upload.{VideoFile, video_key, loaded, UploadAnswers, UploadState}
use bachelor_thesis.Session.{Answer}
use bachelor_thesis.Player.{
  Media, PlayerProps, Player, save_progress, handle_native_time_update, handle_native_pause,
  toggle_play, handle_seek_change, new_player,
}
use bachelor_thesis.Errors.{Failure}

abbrev element : Media
element = record {
  position = 10000;
  duration = some 600000;
  paused = true;
  muted = false;
  volume = 100;
}

abbrev resumed : PlayerProps
resumed = record {
  has_lesson = true;
  max_savable_position = some 60000;
  save_interval = 10000;
  initial_position = 10000;
  player_key = 0;
}

abbrev video_player : Player
video_player = new_player resumed (some element)

abbrev watching : List PlayerEvent
watching =
    PlayerEvent.ticked 10200
    ∷ PlayerEvent.ticked 11000
    ∷ sought 40000
    ∷ PlayerEvent.ticked 40100
    ∷ PlayerEvent.ticked 41000
    ∷ paused_at 41200
    ∷ []

player_run-reported_example :
    reported (player_run resumed watching video_player).1 ≤ played 10000 watching
player_run-reported_example =
    player_run-reported resumed watching video_player refl refl (omega arith)

-- The jump is not reported: what was played before it is saved, and what comes after the next save.
watching_reports : reported (player_run resumed watching video_player).1 ≡ 1300
unfolding player_run player_step handle_native_time_update handle_native_pause handle_seek_change
    save_progress
watching_reports = refl

-- The button pauses a player that a question blocks.
blocked_button :
    toggle_play true (record video_player { media = some (record element { paused = false }) })
    ≡ video_player
unfolding toggle_play
blocked_button = refl

abbrev capped : PlayerProps
capped = record resumed { max_savable_position = max_savable_position props watched_state }

player_run-SavesBefore_example :
    All
      (SavesBefore (pending_checkpoints watched_state))
      (player_run capped watching video_player).1
player_run-SavesBefore_example =
    player_run-SavesBefore props watched_state capped watching video_player refl refl

abbrev recorded_once : Recorder
recorded_once =
    on_stop "audio/ogg" "blob:1"
      (stop_recording (data_available 40 (mic_granted (start_recording (new_recorder none)))))

-- A recording is started, stopped and heard again.
recording : Reaches false (new_recorder none) recorded_once
unfolding new_recorder
recording =
    next
      (next
        (next (next (next here (RecorderStep.started _ refl refl)) (RecorderStep.granted _ refl))
          (RecorderStep.received _ 40 refl))
        (RecorderStep.stop_pressed _ refl refl))
      (RecorderStep.stopped _ "audio/ogg" "blob:1" refl)

Reaches-IsSound_example : IsSound recorded_once
Reaches-IsSound_example = Reaches-IsSound none recording

abbrev not_sent : Recorder
not_sent = failed "HTTP 500" (upload recorded_once)

Reaches-failed_example : (preview_fetched none not_sent).state ≡ Phase.error
Reaches-failed_example =
    Reaches-failed {disabled = false} (next here (RecorderStep.fetched not_sent none)) refl

abbrev lecture : VideoFile
lecture = record { name = "lecture.1.mp4"; kind = "video/mp4" }

abbrev http_text : ℕ → String
http_text status = "HTTP"

abbrev stored_well : UploadAnswers
stored_well = record {
  version = "v1";
  url = Answer.ok "https://store/1";
  sent = loaded 200;
  seconds = some 600;
  registered = none;
}

abbrev no_upload : UploadState
no_upload = record {
  progress = none;
  error = none;
  done = false;
  selected = none;
  is_pending = false;
}

-- The key ends with what stands behind the last dot of the name.
lecture_key : video_key "l1" "v1" lecture ≡ "lessons/l1/video/v1.mp4"
unfolding video_key
lecture_key = refl

abbrev filled_form : QuickForm
filled_form = record {
  title = "Bài 1";
  description = "";
  module_id = "m1";
  video_file = some lecture;
  language = "vi";
  audio_language = "en";
  config = record {
    difficulty = "medium";
    focus_prompt = "";
    quantities = record {
      single_choice = 1;
      multiple_choice = 0;
      fill_blank = 0;
      reading = 0;
      listening = 0;
    };
    max_attempts = 0;
    feedback_mode = FeedbackMode.hidden;
  };
}

abbrev all_well : QuickAnswers
all_well = record {
  created = Answer.ok "l1";
  updated = none;
  feedback_updated = none;
  version = "v1";
  url = Answer.ok "https://store/1";
  sent = loaded 200;
  seconds = some 600;
  registered = none;
  started = none;
}

handle_submit-Follows_example :
    Follows
      (plan none "l1")
      (succeeds http_text none filled_form all_well)
      "l1"
      (handle_submit http_text none filled_form all_well)
handle_submit-Follows_example = handle_submit-Follows http_text none filled_form all_well

-- A form that is sent again after its settings were not saved creates a second lesson.
again_creates :
    map stage_of (
      (handle_submit http_text none filled_form
        (record all_well { updated = some Failure.value })).0
      ++ (handle_submit http_text none filled_form
          (record all_well { created = Answer.ok "l2" })).0)
    ≡ Stage.creating ∷ Stage.saving "l1" ∷ plan none "l2"
unfolding handle_submit
again_creates = refl

-- For a lesson that is there already, the description that the form does not show is emptied.
existing_description :
    head
      (handle_submit http_text
        (some (record { id = "l7"; title = "Bài 7" }))
        filled_form
        all_well).0
    ≡ some (
        updates (record {
          id = "l7";
          title = "Bài 7";
          description = "";
          order_index = 0;
          language = "vi";
          max_attempts = 0;
          audio_language = "en";
        }))
unfolding handle_submit
existing_description = refl

-- ===== src/Lesson/Run/Quiet.antt =====
-- Playing the video, answering and keeping the draft leave alone what belongs to the submission.
use bachelor_thesis.Prelude.{
  ℕ, ◌+◌, ◌-◌, String, ◌≡◌, refl, Bool, true, false, ◌&&◌, ◌||◌, not, Option, none, some, List, ltb,
  leb, ◌==◌, if◌then◌else◌, is_some, if-elim, length, find, has, add, get,
}
use bachelor_thesis.Interaction.Proto.{LessonInteraction}
use bachelor_thesis.Interaction.Types.{Response, Grade}
use bachelor_thesis.Interaction.Attempt.{AttemptResponseInput}
use bachelor_thesis.Lesson.State.{
  Video, QuizResult, Props, Flight, LessonState, checkpoint_epsilon, forward_seek_slack,
  max_watch_delta, next_gate,
}
use bachelor_thesis.Lesson.Playback.{
  push_mark, accumulate, surface, crossed_gate, stop_at, hit_test, far_from, clear_initial_load,
  handle_time_update, handle_ended, handle_first_play, hold_at_mark, guard_video, guard_gate,
  guard_seek, release_clamp, passed_gate, show_gate, check_initial_gate,
}
use bachelor_thesis.Lesson.Answer.{
  handle_answer, record_time_to_answer, has_id, mark_saving, save_of_found, begin_save, SaveOutcome,
  complete_save, next_in_checkpoint, go_on, handle_continue, handle_grade, handle_replay_count,
}
use bachelor_thesis.Lesson.Draft.{persist}
use bachelor_thesis.Lesson.Run.{
  PlayEvent, time_update, ended, first_play, held, seeked, clamp_released, gate_checked, answered,
  save_done, continued, graded, replayed, persisted, play_step,
}

-- What belongs to the submission. The error is part of it where the flag says so.
pub record Frame : Type 0 where
  pub submitting : Bool
  pub submitted : Bool
  pub flight : Option Flight
  pub result : Option QuizResult
  pub auto_submit_draft : Option (List (String × Response))
  pub auto_submitted_draft : Bool
  pub shown_error : Option String

abbrev pub frame : Bool → LessonState → Frame
frame calm s = record {
  submitting = s.submitting;
  submitted = s.submitted;
  flight = s.flight;
  result = s.result;
  auto_submit_draft = s.auto_submit_draft;
  auto_submitted_draft = s.auto_submitted_draft;
  shown_error = if calm then s.error else none;
}

-- A save that fails shows an error.
abbrev pub is_calm : PlayEvent → Bool
is_calm (save_done id SaveOutcome.failed) = false
is_calm _ = true

module _ (b : Bool) where
  Quiet : LessonState → LessonState → Type 0
  Quiet s t = frame b t ≡ frame b s

  push_mark-Quiet : (t w : ℕ) (s : LessonState) → Quiet s (push_mark t (record s { watched = w }))
  unfolding push_mark Quiet
  push_mark-Quiet t w s =
      if-elim (Quiet s) (ltb s.max_watched t)
        (if-elim (Quiet s) (leb (s.last_max_watched_push + 1000) t) refl refl) refl

  accumulate-Quiet : (t : ℕ) (s : LessonState) → Quiet s (accumulate t s)
  unfolding accumulate Quiet
  accumulate-Quiet t s =
      if-elim (Quiet s) (not (is_some s.active_id) && not s.submitted && not s.is_initial_load)
        (if-elim (Quiet s) (ltb s.prev_time t && leb (t - s.prev_time) max_watch_delta)
          (push_mark-Quiet t _ s) refl)
        refl

  stop_at-Quiet :
      (now : ℕ) (o : Option LessonInteraction) (s r : LessonState)
      → Quiet s r
      → Quiet s (stop_at now o r)
  unfolding Quiet surface
  stop_at-Quiet now none s r q = q
  stop_at-Quiet now (some c) s r q = q

  hit_test-Quiet : (now t : ℕ) (s r : LessonState) → Quiet s r → Quiet s (hit_test now t r)
  unfolding hit_test Quiet
  hit_test-Quiet now t s r q = stop_at-Quiet now (crossed_gate r t) s (record r { prev_time = t }) q

  loaded-Quiet :
      (props : Props) (t : ℕ) (s r : LessonState)
      → Quiet s r
      → Quiet s (clear_initial_load props t r)
  unfolding Quiet
  loaded-Quiet props t s r q =
      if-elim (Quiet s) (r.is_initial_load && far_from t props.initial_position) q q

  time_update-Quiet :
      (props : Props) (now t : ℕ) (s : LessonState) → Quiet s (handle_time_update props now t s)
  unfolding handle_time_update
  time_update-Quiet props now t s =
      let counted = accumulate-Quiet t s in
      let loaded = loaded-Quiet props t s (accumulate t s) counted in
      if-elim (Quiet s) (s.submitted || is_some s.active_id) counted (
        if-elim (Quiet s)
          ((clear_initial_load props t (accumulate t s)).is_initial_load || ltb t 500) loaded
          (hit_test-Quiet now t s (clear_initial_load props t (accumulate t s)) loaded))

  ended-Quiet : (now : ℕ) (s : LessonState) → Quiet s (handle_ended now s)
  unfolding handle_ended Quiet
  ended-Quiet now s =
      if-elim (Quiet s) (s.submitted || is_some s.active_id) refl
        (stop_at-Quiet now (next_gate s) s s refl)

  guard_video-Quiet :
      (v : Option Video) (gate : LessonInteraction) (s : LessonState)
      → Quiet s (guard_video v gate s)
  unfolding Quiet
  guard_video-Quiet none gate s = refl
  guard_video-Quiet (some v) gate s =
      if-elim (Quiet s) (s.clamping || s.is_initial_load) refl
        (if-elim (Quiet s) (ltb (gate.start_ms + forward_seek_slack) v.position) refl refl)

  guard_gate-Quiet : (o : Option LessonInteraction) (s : LessonState) → Quiet s (guard_gate o s)
  unfolding Quiet
  guard_gate-Quiet none s = refl
  guard_gate-Quiet (some gate) s = guard_video-Quiet s.video gate s

  guard_seek-Quiet : (s : LessonState) → Quiet s (guard_seek s)
  unfolding guard_seek
  guard_seek-Quiet s = guard_gate-Quiet (next_gate s) s

  show_gate-Quiet :
      (now : ℕ) (o : Option LessonInteraction) (s r : LessonState)
      → Quiet s r
      → Quiet s (show_gate now o r)
  unfolding Quiet show_gate
  show_gate-Quiet now none s r q = q
  show_gate-Quiet now (some c) s r q = q

  gate_checked-Quiet :
      (props : Props) (now : ℕ) (s : LessonState) → Quiet s (check_initial_gate props now s)
  unfolding Quiet check_initial_gate
  gate_checked-Quiet props now s =
      if-elim (Quiet s)
        (s.initial_gate_checked
          || props.is_preview
          || s.submitted
          || length s.lesson_interactions == 0)
        refl
        (if-elim (Quiet s) (leb props.initial_position checkpoint_epsilon) refl (
          show_gate-Quiet now (passed_gate props s) s (record s { initial_gate_checked = true })
            refl))

  hold-Quiet : (s : LessonState) → Quiet s (hold_at_mark s)
  unfolding Quiet hold_at_mark
  hold-Quiet s = if-elim (Quiet s) (is_some s.active_id) refl refl

  persist-Quiet : (props : Props) (s : LessonState) → Quiet s (persist props s)
  unfolding Quiet persist
  persist-Quiet props s = if-elim (Quiet s) props.is_preview refl (
      if-elim (Quiet s) s.submitted refl
        (if-elim (Quiet s) (ltb 0 (length s.responses) || ltb 0 (length s.passed_ids)) refl refl))

  time_to_answer-Quiet :
      (now : ℕ) (id : String) (s : LessonState) → Quiet s (record_time_to_answer now id s)
  unfolding Quiet record_time_to_answer
  time_to_answer-Quiet now id s = if-elim (Quiet s) (is_some (get s.time_to_answer_ms id)) refl refl

  mark_saving-Quiet :
      (o : Option AttemptResponseInput) (id : String) (s r : LessonState)
      → Quiet s r
      → Quiet s (mark_saving o id r).0
  unfolding Quiet mark_saving
  mark_saving-Quiet none id s r q = q
  mark_saving-Quiet (some m) id s r q = q

  begin_save-Quiet :
      (props : Props) (id : String) (s r : LessonState)
      → Quiet s r
      → Quiet s (begin_save props id r).0
  unfolding begin_save
  begin_save-Quiet props id s r q =
      if-elim (λ (p : LessonState × Option AttemptResponseInput). Quiet s p.0) props.is_preview q
        (mark_saving-Quiet (save_of_found props (find (has_id id) r.lesson_interactions) r) id s r
          q)

  go_on-Quiet :
      (now : ℕ) (o : Option LessonInteraction) (s r : LessonState)
      → Quiet s r
      → Quiet s (go_on now o r)
  unfolding Quiet go_on
  go_on-Quiet now none s r q = q
  go_on-Quiet now (some c) s r q = q

  continue-Quiet :
      (props : Props) (now : ℕ) (id : String) (s : LessonState)
      → Quiet s (handle_continue props now id s).0
  unfolding Quiet handle_continue
  continue-Quiet props now id s =
      let timed = record_time_to_answer now id s in
      let saving = (begin_save props id timed).0 in
      if-elim (λ (p : LessonState × Option AttemptResponseInput). Quiet s p.0)
        (has s.saving_response_ids id) refl
        (go_on-Quiet now (next_in_checkpoint id s) s
          (record saving { passed_ids = add saving.passed_ids id })
          (begin_save-Quiet props id s timed (time_to_answer-Quiet now id s)))

  answered-Quiet : (id : String) (r : Response) (s : LessonState) → Quiet s (handle_answer id r s)
  unfolding Quiet handle_answer
  answered-Quiet id r s = refl

  graded-Quiet : (id : String) (g : Grade) (s : LessonState) → Quiet s (handle_grade id g s)
  unfolding Quiet handle_grade
  graded-Quiet id g s = refl

  saved-Quiet :
      (id : String) (ok : Bool) (g : Grade) (s : LessonState)
      → Quiet s (complete_save id (SaveOutcome.saved ok g) s)
  unfolding Quiet complete_save
  saved-Quiet id true g s = refl
  saved-Quiet id false g s = refl

pub play_step-quiet :
    (props : Props) (e : PlayEvent) (s : LessonState)
    → frame (is_calm e) (play_step props e s) ≡ frame (is_calm e) s
unfolding Quiet play_step handle_first_play handle_replay_count release_clamp complete_save
play_step-quiet props (time_update now t) s = time_update-Quiet true props now t s
play_step-quiet props (ended now) s = ended-Quiet true now s
play_step-quiet props (first_play now) s = refl
play_step-quiet props held s = hold-Quiet true s
play_step-quiet props seeked s = guard_seek-Quiet true s
play_step-quiet props clamp_released s = refl
play_step-quiet props (gate_checked now) s = gate_checked-Quiet true props now s
play_step-quiet props (answered id r) s = answered-Quiet true id r s
play_step-quiet props (save_done id (SaveOutcome.saved ok g)) s = saved-Quiet true id ok g s
play_step-quiet props (save_done id SaveOutcome.failed) s = refl
play_step-quiet props (continued now id) s = continue-Quiet true props now id s
play_step-quiet props (graded id g) s = graded-Quiet true id g s
play_step-quiet props (replayed id n) s = refl
play_step-quiet props persisted s = persist-Quiet true props s

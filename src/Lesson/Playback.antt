-- ===== src/Lesson/Playback.antt =====
-- The handlers of the player's events: time updates, the end, the first play, seeks, and the
-- question that a resumed position has passed.
pub mod Gates
pub mod Seeks
pub mod Watch
use bachelor_thesis.Prelude.{
  ℕ, ◌+◌, ◌-◌, String, Bool, true, false, ◌&&◌, ◌||◌, not, Option, none, some, List, [], ◌∷◌, ltb,
  leb, ◌==◌, if◌then◌else◌, is_some, length, find, filter, add_all, get, set,
}
use bachelor_thesis.Interaction.Proto.{LessonInteraction}
use bachelor_thesis.Lesson.State.{
  Video, Props, LessonState, checkpoint_epsilon, forward_seek_slack, max_watch_delta, ids_of,
  pending_checkpoints, next_gate,
}

abbrev pub pause_video : Option Video → Option Video
pause_video none = none
pause_video (some v) = some (record v { paused = true })

abbrev pub position_of : Option Video → ℕ
position_of none = 0
position_of (some v) = v.position

-- `questionShownAtRef`: the time of the first showing stays.
abbrev pub show_question : LessonState → String → ℕ → List (String × ℕ)
show_question s id now =
    if is_some (get s.question_shown_at id)
    then s.question_shown_at
    else set s.question_shown_at id now

-- The first block of `handleTimeUpdate`: real playback counts as watched, and moves the mark.
unfoldable pub push_mark : ℕ → LessonState → LessonState
push_mark t s =
    if ltb s.max_watched t
    then if leb (s.last_max_watched_push + 1000) t
      then record s { max_watched = t; last_max_watched_push = t; max_watched_shown = t }
      else record s { max_watched = t }
    else s

unfoldable pub accumulate : ℕ → LessonState → LessonState
unfolding push_mark
accumulate t s =
    if not (is_some s.active_id) && not s.submitted && not s.is_initial_load
    then if ltb s.prev_time t && leb (t - s.prev_time) max_watch_delta
      then push_mark t (record s { watched = s.watched + (t - s.prev_time) })
      else s
    else s

-- Whether playback from `prev` to `t` reaches the question.
abbrev pub is_crossed : ℕ → ℕ → LessonInteraction → Bool
is_crossed prev t c = ltb prev c.start_ms && leb c.start_ms (t + checkpoint_epsilon)

unfoldable pub surface : ℕ → LessonInteraction → LessonState → LessonState
unfolding get set
surface now c s = record s {
  video = pause_video s.video;
  question_shown_at = show_question s c.id now;
  active_id = some c.id;
}

-- The first pending question that playback to `t` reaches.
unfoldable pub crossed_gate : LessonState → ℕ → Option LessonInteraction
unfolding pending_checkpoints find
crossed_gate s t = find (is_crossed s.prev_time t) (pending_checkpoints s)

abbrev pub stop_at : ℕ → Option LessonInteraction → LessonState → LessonState
unfolding surface
stop_at now none s = s
stop_at now (some c) s = surface now c s

unfoldable pub hit_test : ℕ → ℕ → LessonState → LessonState
unfolding surface crossed_gate
hit_test now t s = stop_at now (crossed_gate s t) (record s { prev_time = t })

abbrev pub far_from : ℕ → ℕ → Bool
far_from a b = ltb (b + 1000) a || ltb (a + 1000) b

abbrev pub clear_initial_load : Props → ℕ → LessonState → LessonState
clear_initial_load props t s =
    if s.is_initial_load && far_from t props.initial_position
    then record s { is_initial_load = false }
    else s

unfoldable pub handle_time_update : Props → ℕ → ℕ → LessonState → LessonState
unfolding accumulate hit_test
handle_time_update props now t s =
    let counted = accumulate t s in
    if s.submitted || is_some s.active_id
    then counted
    else let loaded = clear_initial_load props t counted in
      if loaded.is_initial_load || ltb t 500 then loaded else hit_test now t loaded

-- The end of the video surfaces the first question that is still pending, wherever it stands.
unfoldable pub handle_ended : ℕ → LessonState → LessonState
unfolding surface next_gate
handle_ended now s = if s.submitted || is_some s.active_id then s else stop_at now (next_gate s) s

abbrev is_untimed : LessonInteraction → Bool
is_untimed it = leb it.start_ms 0

show_all : List (String × ℕ) → List LessonInteraction → ℕ → List (String × ℕ)
show_all shown [] now = shown
show_all shown (it ∷ its) now =
    show_all (if is_some (get shown it.id) then shown else set shown it.id now) its now

unfoldable pub handle_first_play : ℕ → LessonState → LessonState
unfolding show_all filter get set add_all
handle_first_play now s =
    let early = filter is_untimed s.lesson_interactions in
    record s {
      is_initial_load = false;
      prev_time = position_of s.video;
      question_shown_at = show_all s.question_shown_at early now;
      passed_ids = add_all s.passed_ids (ids_of early);
    }

-- The listeners of `play` and `timeupdate` while a question is active: no playback past the mark.
abbrev hold : ℕ → Video → Video
hold mark v = if leb mark (v.position + forward_seek_slack) then record v { paused = true } else v

abbrev hold_video : ℕ → Option Video → Option Video
hold_video mark none = none
hold_video mark (some v) = some (hold mark v)

unfoldable pub hold_at_mark : LessonState → LessonState
hold_at_mark s =
    if is_some s.active_id then record s { video = hold_video s.max_watched s.video } else s

abbrev pub or_active : Option String → String → Option String
or_active none id = some id
or_active (some cur) id = some cur

-- `guardSeek`: a seek past the next unanswered question goes back to it, and surfaces it.
abbrev clamp_to : LessonInteraction → Video → LessonState → LessonState
clamp_to gate v s =
    if ltb (gate.start_ms + forward_seek_slack) v.position
    then record s {
      clamping = true;
      video = some (record v { position = gate.start_ms });
      prev_time = gate.start_ms;
      active_id = or_active s.active_id gate.id;
    }
    else s

abbrev pub guard_video : Option Video → LessonInteraction → LessonState → LessonState
guard_video none gate s = s
guard_video (some v) gate s = if s.clamping || s.is_initial_load then s else clamp_to gate v s

abbrev pub guard_gate : Option LessonInteraction → LessonState → LessonState
guard_gate none s = s
guard_gate (some gate) s = guard_video s.video gate s

unfoldable pub guard_seek : LessonState → LessonState
unfolding next_gate
guard_seek s = guard_gate (next_gate s) s

-- The timer that ends the clamp.
unfoldable pub release_clamp : LessonState → LessonState
release_clamp s = record s { clamping = false }

-- The first pending question that the resumed position has passed.
unfoldable pub passed_gate : Props → LessonState → Option LessonInteraction
unfolding pending_checkpoints find
passed_gate props s =
    find (λ c. leb c.start_ms (props.initial_position + checkpoint_epsilon)) (pending_checkpoints s)

unfoldable pub show_gate : ℕ → Option LessonInteraction → LessonState → LessonState
unfolding get set
show_gate now none s = s
show_gate now (some c) s = record s {
  question_shown_at = show_question s c.id now;
  active_id = or_active s.active_id c.id;
}

-- The effect that surfaces a question that the resumed position has passed, once.
unfoldable pub check_initial_gate : Props → ℕ → LessonState → LessonState
unfolding passed_gate show_gate
check_initial_gate props now s =
    if s.initial_gate_checked
      || props.is_preview
      || s.submitted
      || length s.lesson_interactions == 0
    then s
    else let checked = record s { initial_gate_checked = true } in
      if leb props.initial_position checkpoint_epsilon
      then checked
      else show_gate now (passed_gate props s) checked

-- ===== src/Examples/Edits.antt =====
-- Edits of the chunks and of the settings of a lesson, at concrete inputs.
use bachelor_thesis.Settings.Overlap.{changed, first_save, second_save, finish_save-overlapped}
use bachelor_thesis.Interaction.Proto.{FeedbackMode}
use bachelor_thesis.Settings.{
  LessonInfo, Settings, LessonRequest, of_language, of_max_attempts, put, change, finish_save,
}
use bachelor_thesis.Actions.{ActionResult}
use bachelor_thesis.Errors.{Failure}
use bachelor_thesis.Session.{UserRole, TokenType, Answer}
use bachelor_thesis.Session.Access.{UserSession}
use bachelor_thesis.Prelude.{ℕ, ◌+◌, String, ◌≡◌, refl, Bool, true, false, none, List, [], ◌∷◌}
use bachelor_thesis.Chunks.{
  TranscriptChunk, ChunkRequest, adjust_chunk_boundary, MutationState, handle_merge_with_prev,
  handle_merge_with_next, handle_move_segment,
}

abbrev chunk : String → ℕ → TranscriptChunk
chunk id start = record {
  id = id;
  order_index = 0;
  start_ms = start;
  end_ms = start + 60000;
  summary = "";
  transcript = "";
  interaction_config = none;
}

abbrev pub three_chunks : List TranscriptChunk
three_chunks = chunk "a" 0 ∷ chunk "b" 60000 ∷ chunk "c" 120000 ∷ []

abbrev editing : MutationState
editing = record {
  chunks = three_chunks;
  mutating_chunk_id = none;
  mutating_op = none;
  mutating_error = none;
  is_reloading = false;
  toasts = [];
}

abbrev teacher : UserSession
teacher = record {
  claims = record {
    sub = "u1";
    role = UserRole.normal;
    token_type = TokenType.access;
    first_name = "";
    middle_name = "";
    last_name = "";
  };
  token = "t";
}

abbrev refuses : String → ChunkRequest → Answer Bool
refuses token r = Answer.failed Failure.value

abbrev accepts : String → ChunkRequest → Answer Bool
accepts token r = Answer.ok true

-- The first chunk has none before it, and the last none after it.
no_merge_at_ends :
    (handle_merge_with_prev three_chunks "a" ≡ none)
    × (handle_merge_with_next three_chunks "c" ≡ none)
unfolding handle_merge_with_prev handle_merge_with_next
no_merge_at_ends = (refl, refl)

-- Moving a boundary asks for the two chunks around it.
move_segment-request :
    (handle_move_segment "a" "b" 58000 "b").request ≡ adjust_chunk_boundary "a" "b" 58000
unfolding handle_move_segment
move_segment-request = refl

abbrev lesson_info : LessonInfo
lesson_info = record { lesson_id = "l1"; title = "T"; description = "D"; order_index = 2 }

abbrev vietnamese : Settings
vietnamese = record {
  feedback_mode = FeedbackMode.hidden;
  language = "vi";
  audio_language = "vi";
  max_attempts = 3;
}

finish_save-overlapped_example :
    ((finish_save
        (second_save lesson_info (of_language "en") (of_max_attempts 5) vietnamese)
        ActionResult.done
        (finish_save
          (first_save lesson_info (of_language "en") vietnamese)
          (ActionResult.refused "no")
          (changed lesson_info (of_language "en") (of_max_attempts 5) vietnamese)).0).0
      ≡ put (of_max_attempts 5) vietnamese)
    × ((finish_save
          (first_save lesson_info (of_language "en") vietnamese)
          (ActionResult.refused "no")
          (finish_save
            (second_save lesson_info (of_language "en") (of_max_attempts 5) vietnamese)
            ActionResult.done
            (changed lesson_info (of_language "en") (of_max_attempts 5) vietnamese)).0).0
        ≡ put (of_max_attempts 5) vietnamese)
finish_save-overlapped_example =
    finish_save-overlapped lesson_info (of_language "en") (of_max_attempts 5)
      (ActionResult.refused "no") ActionResult.done vietnamese tt

-- The save of the attempts carries the language that was just chosen, before the service has accepted it.
carried :
    (second_save lesson_info (of_language "en") (of_max_attempts 5) vietnamese).request
    ≡ LessonRequest.update_lesson (record {
      id = lesson_info.lesson_id;
      title = lesson_info.title;
      description = lesson_info.description;
      order_index = lesson_info.order_index;
      language = "en";
      max_attempts = 5;
      audio_language = "";
    })
unfolding change
carried = refl

-- Two changes of one setting: the refusal of the first takes back the second as well.
first_refused_late :
    (finish_save
      (first_save lesson_info (of_language "en") vietnamese)
      (ActionResult.refused "no")
      (finish_save
        (second_save lesson_info (of_language "en") (of_language "fr") vietnamese)
        ActionResult.done
        (changed lesson_info (of_language "en") (of_language "fr") vietnamese)).0).0.language
    ≡ "vi"
unfolding change finish_save
first_refused_late = refl

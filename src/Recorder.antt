-- ===== src/Recorder.antt =====
-- The recorder of a spoken answer (interactions/_shared/audio-recorder.tsx): the handlers of its buttons
-- and of the answers that they wait for, and the steps that the rendered buttons allow.
pub mod Sound
use bachelor_thesis.Prelude.{
  ℕ, ◌+◌, String, ◌≡◌, Bool, true, false, Option, none, some, List, [], ◌∷◌, ◌++◌, ltb,
  if◌then◌else◌, is_some, get_or, is_empty, or_text,
}

pub data Phase : Type 0 where
  idle requesting recording recorded uploading done error : Phase

pub record Blob : Type 0 where
  pub kind : String
  pub size : ℕ

-- The states and the references. `live` is whether the microphone is on; `completed` is the key that
-- `onComplete` gave last to the exercise, at first the one that the exercise gave.
pub record Recorder : Type 0 where
  pub state : Phase
  pub audio_key : String
  pub preview_url : Option String
  pub duration : ℕ
  pub error_msg : String
  pub chunks : List ℕ
  pub live : Bool
  pub ticking : Bool
  pub blob : Option Blob
  pub completed : String

unfoldable pub new_recorder : Option String → Recorder
new_recorder key = record {
  state = if is_empty (get_or key "") then Phase.idle else Phase.done;
  audio_key = get_or key "";
  preview_url = none;
  duration = 0;
  error_msg = "";
  chunks = [];
  live = false;
  ticking = false;
  blob = none;
  completed = get_or key "";
}

-- `startRecording` up to its await.
abbrev pub start_recording : Recorder → Recorder
start_recording s = record s { state = Phase.requesting; error_msg = "" }

-- The microphone was given and the recorder started.
abbrev pub mic_granted : Recorder → Recorder
mic_granted s = record s {
  state = Phase.recording;
  chunks = [];
  blob = none;
  duration = 0;
  live = true;
  ticking = true;
}

abbrev pub failed : String → Recorder → Recorder
failed msg s = record s { state = Phase.error; error_msg = msg }

-- The microphone was given, and the recorder could not be made.
abbrev recorder_failed : String → Recorder → Recorder
recorder_failed msg s = failed msg (record s { live = true })

-- The recorder was made, and could not be started.
abbrev start_failed : String → Recorder → Recorder
start_failed msg s = failed msg (record s { chunks = []; blob = none; duration = 0; live = true })

abbrev pub data_available : ℕ → Recorder → Recorder
data_available size s = if ltb 0 size then record s { chunks = s.chunks ++ size ∷ [] } else s

abbrev second_passed : Recorder → Recorder
second_passed s = if s.ticking then record s { duration = s.duration + 1 } else s

-- `stopRecording`; the recorder's `onstop` follows.
abbrev pub stop_recording : Recorder → Recorder
stop_recording s = record s { ticking = false }

abbrev pub total : List ℕ → ℕ
total [] = 0
total (n ∷ ns) = n + total ns

-- `onstop`, with the type of the recorder and the address of the recording.
abbrev pub on_stop : String → String → Recorder → Recorder
on_stop kind url s = record s {
  state = Phase.recorded;
  blob = some (record { kind = or_text kind "audio/webm"; size = total s.chunks });
  preview_url = some url;
  live = false;
  ticking = false;
}

-- `upload` up to its first await.
abbrev pub upload : Recorder → Recorder
upload s = if is_some s.blob then record s { state = Phase.uploading; error_msg = "" } else s

abbrev uploaded : String → Recorder → Recorder
uploaded key s = record s { state = Phase.done; audio_key = key; completed = key }

abbrev reset : Recorder → Recorder
reset s = record s {
  state = Phase.idle;
  audio_key = "";
  preview_url = none;
  duration = 0;
  error_msg = "";
  blob = none;
  completed = "";
}

-- The address of an uploaded recording came, or did not.
abbrev pub preview_fetched : Option String → Recorder → Recorder
preview_fetched url s = record s { preview_url = url }

-- One step: a button that is shown and enabled is pressed, or what the recorder waits for comes.
pub data RecorderStep (disabled : Bool) : Recorder → Recorder → Type 0 where
  started :
      (s : Recorder)
      → disabled ≡ false
      → s.state ≡ Phase.idle
      → RecorderStep disabled s (start_recording s)
  granted : (s : Recorder) → s.state ≡ Phase.requesting → RecorderStep disabled s (mic_granted s)
  denied :
      (s : Recorder) (msg : String)
      → s.state ≡ Phase.requesting
      → RecorderStep disabled s (failed msg s)
  unusable :
      (s : Recorder) (msg : String)
      → s.state ≡ Phase.requesting
      → RecorderStep disabled s (recorder_failed msg s)
  not_started :
      (s : Recorder) (msg : String)
      → s.state ≡ Phase.requesting
      → RecorderStep disabled s (start_failed msg s)
  received :
      (s : Recorder) (size : ℕ)
      → s.state ≡ Phase.recording
      → RecorderStep disabled s (data_available size s)
  ticked : (s : Recorder) → RecorderStep disabled s (second_passed s)
  stop_pressed :
      (s : Recorder)
      → disabled ≡ false
      → s.state ≡ Phase.recording
      → RecorderStep disabled s (stop_recording s)
  stopped :
      (s : Recorder) (kind url : String)
      → s.state ≡ Phase.recording
      → RecorderStep disabled s (on_stop kind url s)
  submitted :
      (s : Recorder)
      → disabled ≡ false
      → s.state ≡ Phase.recorded
      → RecorderStep disabled s (upload s)
  stored :
      (s : Recorder) (key : String)
      → s.state ≡ Phase.uploading
      → is_empty key ≡ false
      → RecorderStep disabled s (uploaded key s)
  not_stored :
      (s : Recorder) (msg : String)
      → s.state ≡ Phase.uploading
      → RecorderStep disabled s (failed msg s)
  discarded :
      (s : Recorder)
      → disabled ≡ false
      → s.state ≡ Phase.recorded
      → RecorderStep disabled s (reset s)
  replaced :
      (s : Recorder)
      → disabled ≡ false
      → s.state ≡ Phase.done
      → is_empty s.audio_key ≡ false
      → RecorderStep disabled s (reset s)
  fetched : (s : Recorder) (url : Option String) → RecorderStep disabled s (preview_fetched url s)

-- The states that steps lead to.
pub data Reaches (disabled : Bool) (s : Recorder) : Recorder → Type 0 where
  here : Reaches disabled s s
  next : {t u : Recorder} → Reaches disabled s t → RecorderStep disabled t u → Reaches disabled s u

-- ===== src/Recorder/Sound.antt =====
-- What holds of the recorder in every state that it reaches.
use bachelor_thesis.Prelude.{
  String, ◌≡◌, Bool, true, false, ◌&&◌, not, Option, arith, is_some, is_empty,
}
use bachelor_thesis.Recorder.{Phase, Recorder, new_recorder, RecorderStep, Reaches, here, next}

abbrev pub has_recording : Phase → Bool
has_recording Phase.recorded = true
has_recording Phase.uploading = true
has_recording _ = false

abbrev pub may_hear : Phase → Bool
may_hear Phase.recording = true
may_hear Phase.error = true
may_hear _ = false

abbrev pub is_done : Phase → Bool
is_done Phase.done = true
is_done _ = false

-- A recording is there where one can be sent, the microphone is on only while it records or after a
-- failure, the recorder has a key exactly where it is done, and the exercise holds the same key.
pub record IsSound (s : Recorder) : Type 0 where
  pub ready : (has_recording s.state && not (is_some s.blob)) ≡ false
  pub quiet : (s.live && not (may_hear s.state)) ≡ false
  pub keyed : is_done s.state ≡ not (is_empty s.audio_key)
  pub kept : s.completed ≡ s.audio_key

new_recorder-IsSound : (key : Option String) → IsSound (new_recorder key)
unfolding new_recorder
new_recorder-IsSound key = ground arith

step-IsSound :
    {disabled : Bool} {s t : Recorder} → RecorderStep disabled s t → IsSound s → IsSound t
step-IsSound (RecorderStep.started s e h) k = ground arith
step-IsSound (RecorderStep.granted s h) k = ground arith
step-IsSound (RecorderStep.denied s msg h) k = ground arith
step-IsSound (RecorderStep.unusable s msg h) k = ground arith
step-IsSound (RecorderStep.not_started s msg h) k = ground arith
step-IsSound (RecorderStep.received s n h) k = ground arith
step-IsSound (RecorderStep.ticked s) k = ground arith
step-IsSound (RecorderStep.stop_pressed s e h) k = ground arith
step-IsSound (RecorderStep.stopped s kind url h) k = ground arith
step-IsSound (RecorderStep.submitted s e h) k = ground arith
step-IsSound (RecorderStep.stored s key h e) k = ground arith
step-IsSound (RecorderStep.not_stored s msg h) k = ground arith
step-IsSound (RecorderStep.discarded s e h) k = ground arith
step-IsSound (RecorderStep.replaced s e h l) k = ground arith
step-IsSound (RecorderStep.fetched s url) k = ground arith

-- In every state that the recorder reaches, a recording is there where one can be sent, the microphone is
-- on only while it records or after a failure, the recorder has a key exactly where it is done, and the
-- exercise holds the same key.
pub Reaches-IsSound :
    {disabled : Bool} (key : Option String) {t : Recorder}
    → Reaches disabled (new_recorder key) t
    → IsSound t
Reaches-IsSound key here = new_recorder-IsSound key
Reaches-IsSound key (next r st) = step-IsSound st (Reaches-IsSound key r)

step-failed :
    {disabled : Bool} {s t : Recorder}
    → RecorderStep disabled s t
    → s.state ≡ Phase.error
    → t.state ≡ Phase.error
step-failed (RecorderStep.started s e h) k = ground arith
step-failed (RecorderStep.granted s h) k = ground arith
step-failed (RecorderStep.denied s msg h) k = ground arith
step-failed (RecorderStep.unusable s msg h) k = ground arith
step-failed (RecorderStep.not_started s msg h) k = ground arith
step-failed (RecorderStep.received s n h) k = ground arith
step-failed (RecorderStep.ticked s) k = ground arith
step-failed (RecorderStep.stop_pressed s e h) k = ground arith
step-failed (RecorderStep.stopped s kind url h) k = ground arith
step-failed (RecorderStep.submitted s e h) k = ground arith
step-failed (RecorderStep.stored s key h e) k = ground arith
step-failed (RecorderStep.not_stored s msg h) k = ground arith
step-failed (RecorderStep.discarded s e h) k = ground arith
step-failed (RecorderStep.replaced s e h l) k = ground arith
step-failed (RecorderStep.fetched s url) k = ground arith

-- After a failure no step leaves the failed state: the recorder can neither record again nor send the
-- recording that it may still hold.
pub Reaches-failed :
    {disabled : Bool} {s t : Recorder}
    → Reaches disabled s t
    → s.state ≡ Phase.error
    → t.state ≡ Phase.error
Reaches-failed here h = h
Reaches-failed (next r st) h = step-failed st (Reaches-failed r h)

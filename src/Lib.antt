-- ===== src/Lib.antt =====
-- A verification of the web application of the repository (typescript/heino/src), in which students watch
-- lessons and answer the exercises that teachers have made from the videos. All paths below start at that
-- folder unless they name another; lessons/ stands for
-- app/dashboard/organizations/[slug]/courses/[courseId]/lessons/[lessonId]/.
--
-- - Prelude: shared names, Boolean tests, lists, sets and maps keyed by texts, sorting, whole numbers with a
--   sign, and operations on texts.
-- - Interaction: the exercises. Proto has the messages (proto/richter/v1/interactions.proto from the
--   repository's root), Types the local types (interactions/types.ts), Registry the translation between them
--   (interactions/registry.ts), Grading the local graders (interactions/mcq, fill-blank and listening),
--   Attempt the answers of an attempt (lessons/student-attempt-response.ts), Form the teacher's form
--   (lessons/interaction-row.tsx), and Quantity the numbers of exercises (lessons/kind-quantity-grid.tsx).
-- - Errors: failures of calls (lib/connect-error.ts and interactions/_shared/connect-error-message.ts).
-- - Lesson: the student's view (lessons/student-lesson-view.tsx). State has the state and what is derived
--   from it, Playback the events of the player, Answer the answers, Preview the scores
--   of a preview, Submit the submissions, Draft the draft in
--   the session storage, and Run the whole as a machine whose steps return the calls that they make. A call
--   and its answer are two events, with the values that the call captured kept in `flight`.
-- - Session: tokens and their refresh (lib/auth.ts, lib/refresh.ts). Gate has the gate and the refresh route
--   (proxy.ts, app/api/auth/refresh/route.ts), Access the guards of the pages, log-in and registration
--   (lib/auth.ts, app/actions/auth.ts), and WebClient the interceptor of the calls
--   (lib/connect-webclient.ts).
-- - Analysis: the tasks that transcribe and divide a lesson. Types, Timings, Active, Ended, Tracker and Stale
--   are lessons/analysis-task-tracker.ts with the types of lessons/analysis-workflow-ui.tsx; Polling is
--   lessons/use-lesson-tasks.ts; Shell is what the steps show (lessons/analysis-workflow-shell.tsx), Cards
--   their cards (lessons/analysis-progress-card.tsx), Panel the
--   panel of the tasks (lessons/lesson-task-panel.tsx), and Workflow the state that the page starts from and waits in,
--   with Starting for the starts of the tasks (lessons/use-lesson-analysis-state.ts and
--   lessons/analysis-stepper.ts).
-- - Actions: the server actions of a lesson (lessons/actions.ts), Chunks the edits of a transcript's chunks
--   (lessons/analysis-chunk-mutations.ts), and Settings the settings of a lesson
--   (lessons/use-lesson-analysis-settings.ts). The page is taken to be drawn again between two changes of a
--   setting, so that a setter reads the value that is shown.
-- - ExerciseTab: the teacher's tab of the exercises (lessons/tab-exercises.tsx), as a machine whose events are
--   what the teacher does and the answers that come. Generation has the generations of single chunks, several
--   of which run at once, each with its abort controller, here a number.
-- - Player: the player of a lesson's video (lessons/video-player.tsx), whose events Steps runs. Credit, Run,
--   Saving and Resuming prove what it reports as watched and where it resumes. The cap of the saved position,
--   which the student's view gives it, stays the same within a run.
-- - Upload: the upload of a video (lessons/video-upload.tsx), and QuickCreate the dialog that makes a lesson
--   from one (components/dashboard/quick-create/QuickCreateLessonDialog.tsx), whose steps stop at the first
--   failure by a small monad (QuickCreate/Calls).
-- - Recorder: the recorder of a spoken answer (interactions/_shared/audio-recorder.tsx), as a step relation.
-- - Course: the pages of a course and of a lesson (page.tsx of app/dashboard/organizations/[slug]/courses/
--   [courseId]/ and of lessons/), with the student's figures in Overview.
-- - Results: the results of a course (course-results.tsx, course-results-view.tsx and
--   course-results-charts.tsx of app/dashboard/organizations/[slug]/courses/[courseId]/), with the students at
--   risk in Risk.
-- - Members: the actions on members (app/actions/course-members.ts and organization-members.ts) and the list of
--   join requests (courses/[courseId]/join-requests-tab.tsx).
-- - Heatmap: the heatmap of a lesson's scores (lessons/lesson-heatmap.tsx).
-- - Recent: the pages opened last (lib/recent-access.ts).
-- - Examples: the theorems at concrete inputs, and runs of the definitions.
--
-- Session uses Errors; Lesson uses Interaction and Errors; Analysis uses Errors; Chunks and Settings use
-- Actions, which uses Session and Errors; ExerciseTab uses Interaction, Chunks and the tasks of Analysis;
-- QuickCreate uses Upload and Settings, and Player the cap of Lesson;
-- Course uses Session and the rounding of Results; Members uses Course, Session and Errors, and Heatmap the
-- rounding of Results; Recorder, Results and Recent stand alone.
--
-- Times are whole milliseconds, and the clock does not go back between two readings of one measurement; a
-- local score is in thousandths of a point, so that one point is 1000; engagement and shares of the results
-- are in thousandths too, and are rounded exactly. The player's positions are milliseconds from 0. The
-- percentages of a course's overview are computed with doubles, as the source does (Prelude.Doubles): the
-- scale of a quotient is searched up to 128, which is enough for quotients of whole numbers of at most 53
-- binary digits above 1 / 2 ^ 76. The search for a transient failure follows five links of the chain of
-- causes, as the source does; every other recursion is structural.
--
-- Parameters of the model: the lower-casing of a text, the verification of tokens, the answers of the
-- service, JSON and the URI encoding of the cookie, JSON of the draft in the storage, what `Number` gives for
-- a value that is no number, and the `toDate` method of a timestamp. A run of the student's view counts its
-- submissions and its saves of answers apart.
--
-- Not modelled: the rendering of the pages and components, the service itself (another language), the
-- player's errors, volume and full screen, and the percentage shown while a
-- video is sent.
pub mod Prelude
pub mod Interaction
pub mod Course
pub mod Errors
pub mod ExerciseTab
pub mod Lesson
pub mod Session
pub mod Analysis
pub mod Actions
pub mod Chunks
pub mod Settings
pub mod Upload
pub mod QuickCreate
pub mod Player
pub mod Recorder
pub mod Members
pub mod Heatmap
pub mod Results
pub mod Recent
pub mod Examples

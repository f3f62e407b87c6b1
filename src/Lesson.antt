-- ===== src/Lesson.antt =====
-- The view in which a student watches a lesson and answers its exercises
-- (lessons/[lessonId]/student-lesson-view.tsx).
pub mod State
pub mod Playback
pub mod Answer
pub mod Preview
pub mod Submit
pub mod Draft
pub mod Run

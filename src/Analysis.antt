-- ===== src/Analysis.antt =====
-- The workflow in which a teacher has a lesson transcribed, divided and given exercises
-- (lessons/[lessonId]/analysis-task-tracker.ts, analysis-stepper.ts and analysis-workflow-ui.tsx).
pub mod Types
pub mod Timings
pub mod Active
pub mod Ended
pub mod Tracker
pub mod Stale
pub mod Polling
pub mod Workflow
pub mod Starting
pub mod Shell
pub mod Cards
pub mod Panel

-- ===== src/Examples.antt =====
-- The theorems at concrete inputs, and runs of the definitions.
pub mod Exercises
pub mod Lessons
pub mod Sessions
pub mod Edits
pub mod Media
pub mod Tab
pub mod Pages
pub mod Boards
pub mod Starts
pub mod Courses
pub mod Tasks

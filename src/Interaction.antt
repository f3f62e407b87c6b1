-- ===== src/Interaction.antt =====
-- Interactions, the exercises of a lesson: messages of the service (proto/richter/v1/interactions.proto),
-- the client's own types (typescript/heino/src/interactions), grading, answers and editing.
pub mod Proto
pub mod Types
pub mod Registry
pub mod Grading
pub mod Attempt
pub mod Form
pub mod Quantity

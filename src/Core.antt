-- ===== src/Core.antt =====
-- src/core: the actions of a chaos plan, and the plan that schedules them.
pub mod Action
pub mod Plan
pub mod Assign
pub mod Disturb

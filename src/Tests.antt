-- ===== src/Tests.antt =====
-- Runs of the model on small inputs, and the theorems at inputs that meet their hypotheses.
mod FlowChart
mod Plan
mod Brackets
mod Comments
mod Includes
mod State
mod Nesting
mod Expression
mod Strings
mod Checks
mod Update
mod Proper
mod Disturb
mod Guard
mod Inside

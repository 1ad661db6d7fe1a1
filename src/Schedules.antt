-- ===== src/Schedules.antt =====
-- portal/schedules/sched: the schedule service's domain.
pub mod Time
pub mod Types
pub mod Rules
pub mod RuleLoop
pub mod Weekly
pub mod Daily
pub mod Validate
pub mod Edges
pub mod Limits
pub mod Runs
pub mod Child
mod Examples
mod RunExamples

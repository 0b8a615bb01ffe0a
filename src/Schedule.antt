-- ===== src/Schedule.antt =====
-- packages/protocol/src/schedule.ts: the encoding of schedules, and the humane form that the dashboard edits. Texts of
-- times and dates are lists of code points; numbers are natural numbers, so that `Math.max(0, Math.trunc(t))` is `t`.
pub mod Times
pub mod Humane
pub mod Describe
pub mod Recurrence
pub mod RoundTrip
mod Examples

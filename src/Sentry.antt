-- ===== src/Sentry.antt =====
-- The lambdas under sentry/lambdas, which answer to events of AWS and change what they find there.
pub mod Guardrail
pub mod Reaper
pub mod SelfHealer
mod Tests

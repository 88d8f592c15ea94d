-- ===== src/Guardrail.antt =====
-- core/guardrail/tierPolicy.js, core/guardrail/streamingGuardrail.js: a tenant's ceilings, and
-- the decision on a file.
pub mod Tier
pub mod Reason
pub mod Check
pub mod Laws
mod Tests

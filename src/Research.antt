-- ===== src/Research.antt =====
-- The research policies (src/research_os/research).
pub mod Errors
pub mod Orchestration
pub mod Candidate
pub mod TierGate
pub mod Severity
pub mod Impact
pub mod Scheduler

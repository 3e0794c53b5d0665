-- ===== src/Tools.antt =====
-- The policy source of the capabilities (src/research_os/tools).
pub mod Registry
pub mod Allowlist

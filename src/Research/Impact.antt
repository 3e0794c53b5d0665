-- ===== src/Research/Impact.antt =====
-- The impact chains of a finding (research/impact).
pub mod Kinds
pub mod Cycle
pub mod Chain
pub mod Capabilities
pub mod Proofs
pub mod Examples

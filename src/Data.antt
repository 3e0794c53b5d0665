-- ===== src/Data.antt =====
-- src/research_os/data: durable records and what is computed from them.
pub mod Records
pub mod Ledger
pub mod Store
pub mod ImpactChains

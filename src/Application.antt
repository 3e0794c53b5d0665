-- ===== src/Application.antt =====
-- src/research_os/application: the services.
pub mod BudgetConsumption
pub mod ImpactChains

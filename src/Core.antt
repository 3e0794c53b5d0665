-- ===== src/Core.antt =====
-- The decision core (src/research_os/core).
pub mod Enums
pub mod Identity
pub mod Approval
pub mod Authorization
pub mod Budget
pub mod Scope
pub mod ScopeCompiler
pub mod RateLimit
pub mod Pricing
pub mod Capability
pub mod Execution

-- ===== src/Domain.antt =====
-- python/domain: the value objects and the pure services of the shared domain.
pub mod Ids
pub mod Json
pub mod Enums
pub mod Time
pub mod Approval
pub mod Money
pub mod Handoff
pub mod Tests
pub mod Publication

-- ===== src/Domain.antt =====
-- The domain layer (internal/domain): entities and value objects.
pub mod Event
pub mod Filter
pub mod Transformation
pub mod Consumer
pub mod Schema
mod Tests

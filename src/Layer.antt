-- ===== src/Layer.antt =====
-- The base layer, packages/base/app-layer-base: transactions and the services with their hooks.
pub mod Transaction
pub mod Repository
pub mod Services
pub mod Hooks
pub mod Ordering
mod Examples

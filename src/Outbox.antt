-- ===== src/Outbox.antt =====
-- The transactional outbox (packages/prebuilt/app-prebuilt-outbox/src/app_prebuilt_outbox).
pub mod Model
pub mod Policy
pub mod Repo
pub mod Relay
pub mod Admin
pub mod Hooks
mod Examples

-- ===== src/Auth.antt =====
-- Users, administrators, browser sessions and machine keys
-- (packages/prebuilt/app-prebuilt-auth/src/app_prebuilt_auth).
pub mod Users
pub mod Access
pub mod Keys
pub mod Passwords
pub mod Tokens
pub mod Login
pub mod Profile
pub mod Google
pub mod Browser
pub mod Throttle
mod Examples

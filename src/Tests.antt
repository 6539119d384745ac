-- ===== src/Tests.antt =====
-- Small states of the service, and the theorems at them.
pub mod Worlds
mod Operations
mod Consistent
mod Gateway
mod Shared
mod Auth
mod Sessions
mod Libs
mod Broker
mod Lockout
mod Journey

-- ===== src/Cose.antt =====
-- The package cose: signed messages, the claims of their headers, and keys.
pub mod Value
mod Texts
pub mod Key
pub mod Claims
pub mod NewClaim
pub mod Rsa
pub mod Verify
pub mod Message
mod Scenarios
pub mod Sent
mod Signing
mod Journey

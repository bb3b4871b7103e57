-- ===== src/Azkeys.antt =====
-- The package azkeys: keys of Azure key vaults.
pub mod KeyVault
pub mod Secrets
pub mod Token
pub mod Signing
mod TestSigner
mod Authorizer
mod Scenarios
mod Signers

-- ===== src/Azblob.antt =====
-- The package azblob: reads and writes blobs of Azure blob storage.
pub mod Error
pub mod Options
pub mod Conditions
pub mod HashingReader
pub mod Service
pub mod Response
pub mod Upload
pub mod Multipart
pub mod ReadBack
pub mod Download
pub mod Listing
pub mod Lease
pub mod Clients
mod Scenarios
mod Transfers
mod Accounts
mod Memory

-- ===== src/Tests.antt =====
-- The theorems at concrete inputs, and runs of the code.
mod FileFormat
mod Ctaphid
mod Entry
mod Session
mod Merge
mod Calendar
mod Sync
mod Storage
mod Update
mod Crypto
mod Keys
mod Serialization
mod Vaults
mod Csv
mod Uhid
mod Daemon
mod Ctap2

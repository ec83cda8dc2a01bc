-- ===== src/Lease.antt =====
-- internal/sshaccess/lease.go: temporary SSH leases and the certificates that are issued for them.
pub mod Types
pub mod Config
pub mod Transaction
pub mod Service
pub mod Opening
pub mod Issue
pub mod Effect
pub mod Serials
pub mod Evolution
pub mod Ledger
pub mod Calls
pub mod History
pub mod Signers
pub mod Quiet
pub mod Audit
pub mod Samples
pub mod Trials
pub mod Certificates

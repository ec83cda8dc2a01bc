-- ===== src/Policy.antt =====
-- internal/policy and the part of internal/store that keeps its grants, receipts and approvals.
pub mod Types
pub mod Engine
pub mod Receipts
pub mod Store
pub mod Enforce
pub mod Budget
pub mod Admission
pub mod History
pub mod Approvals
pub mod Samples
pub mod Trials

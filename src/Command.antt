-- ===== src/Command.antt =====
-- internal/sshcommand/gate.go: which literal commands a restricted SSH role may run.
pub mod Words
pub mod Rules
pub mod Roles
pub mod Gate
pub mod Delivery
pub mod Samples

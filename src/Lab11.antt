-- ===== src/Lab11.antt =====
-- lab11: threads that share a file.
pub mod Accounts

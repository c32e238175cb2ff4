-- ===== src/Lab12.antt =====
-- lab12: the exercises on threads that share work.
pub mod BigNumber
pub mod Doors
mod Tests

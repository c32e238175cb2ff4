-- ===== src/Kernel.antt =====
-- The kernel of lab06 (lab06/xv6-cond-martino with the files of lab06/src): the process table with
-- sleep and wakeup, the semaphores and the condition variables of file.c.
pub mod Proc
pub mod Semaphore
pub mod Condition
pub mod Alloc
pub mod Args
pub mod Calls
pub mod Machine
mod Tests

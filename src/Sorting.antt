-- ===== src/Sorting.antt =====
-- The sorting routines of the laboratories: the bubble sort of lab01/lab1.1.c and lab04/lab4.2.c.
pub mod Barriers
pub mod Bubble
pub mod Regions
pub mod Merge
pub mod Quick
mod Tests

-- ===== src/Lab03.antt =====
-- lab03: the bounded buffers of prod_cons.c and lab3.1.c, the producer and the consumer, and the
-- offices that students queue at.
pub mod Ring
pub mod ProdCons
pub mod Offices
mod Tests

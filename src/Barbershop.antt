-- ===== src/Barbershop.antt =====
-- Operating-systems/lab7: the sleeping barber. The circular waiting queue of barbershop.h.
pub mod Fifo
pub mod Protocol
mod Examples

-- ===== src/Mtp3.antt =====
-- mtp3.c: level 3.
pub mod Label
pub mod Select
pub mod Delivery
pub mod Changeover

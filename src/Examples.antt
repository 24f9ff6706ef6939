-- ===== src/Examples.antt =====
-- The programs in examples/, but for what they print on the way and the threads they start: each
-- function that follows is one function of a program there.
pub mod Trading
pub mod Upto
pub mod Rings
pub mod Mpmc
pub mod Fleet

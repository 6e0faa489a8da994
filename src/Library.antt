-- ===== src/Library.antt =====
-- The parts of Python's library that the program takes its answers from, as interfaces.
pub mod Ip
pub mod Url
pub mod Samples
pub mod Keys
pub mod Files

-- ===== src/Effects.antt =====
-- Python's exceptions, the files that the program reads and writes, and the clock.
pub mod Result
pub mod World
pub mod Within

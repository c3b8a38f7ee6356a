-- ===== src/Examples.antt =====
-- examples: the servers of the example programs, and what their clients are sent.
pub mod Values
pub mod Simple
pub mod Failing
pub mod Numeric

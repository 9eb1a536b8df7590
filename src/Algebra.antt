-- ===== src/Algebra.antt =====
-- The algebra of libff, which the program calls and this repository does not hold: parameters.
pub mod Field
pub mod Group
pub mod Range

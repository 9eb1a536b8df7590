-- ===== src/Poly.antt =====
-- include/pvss/PolyOps.hpp. Defs and Check hold the definitions, the others what is proved of them.
pub mod Defs
pub mod Check
pub mod Spec
pub mod Interpolation
pub mod Loops
pub mod Recover
pub mod Dual
pub mod Accepts
pub mod Ambiguous
pub mod Through
pub mod Converse
pub mod Sound
pub mod Line

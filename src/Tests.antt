-- ===== src/Tests.antt =====
-- A field of five elements and the structures over it, and the theorems at concrete inputs.
pub mod Five
pub mod Sharing
pub mod Network
pub mod Coding
pub mod Protocol
pub mod Opening
pub mod Decrypting
pub mod Accepting
pub mod Agreeing
pub mod Run
pub mod Winning
pub mod Repeating

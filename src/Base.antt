-- ===== src/Base.antt =====
-- The headers of base/.
pub mod Math
pub mod Time
pub mod VTable
pub mod BitOp

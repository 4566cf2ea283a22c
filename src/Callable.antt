-- ===== src/Callable.antt =====
-- The type-erased callables of callable/.
pub mod Function
pub mod Delegate

-- ===== src/Condition.antt =====
-- ift/encoder/activation_condition.{h,cc}: the conditions under which a patch is loaded.
pub mod Defs
pub mod Combine
pub mod Rewrite
pub mod Semantics
pub mod Disjunction
pub mod Groups
pub mod Replacement
pub mod Superset
pub mod Shape
pub mod Ordering
mod Runs

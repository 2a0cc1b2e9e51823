-- ===== src/Dynamic.antt =====
-- include/sqlgen/dynamic: the statements that the dialects print. A `Ref` is its target, a struct
-- that holds a list of itself is two data types of one block, and `Type` is `SqlType`.
pub mod Types
pub mod Value
pub mod Operation
pub mod Condition
pub mod Select
pub mod Statement
pub mod Names
pub mod Safe
pub mod SafeSelect
pub mod SafeStatement

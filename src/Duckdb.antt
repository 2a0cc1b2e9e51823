-- ===== src/Duckdb.antt =====
-- src/sqlgen/duckdb: the text of a statement for DuckDB.
pub mod Literal
pub mod Types
pub mod Safe
pub mod Value
pub mod Operation
pub mod Condition
pub mod Select
pub mod Statement
pub mod Balance

-- ===== src/Postgres.antt =====
-- src/sqlgen/postgres: the text of a statement for PostgreSQL.
pub mod Literal
pub mod Types
pub mod Value
pub mod Operation
pub mod Condition
pub mod Select
pub mod Statement
pub mod Safe
pub mod Balance
pub mod Copy
pub mod Iterator
pub mod Connection

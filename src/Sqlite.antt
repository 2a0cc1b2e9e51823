-- ===== src/Sqlite.antt =====
-- src/sqlgen/sqlite: the text of a statement for SQLite, and the connection.
pub mod Literal
pub mod Duration
pub mod Types
pub mod Value
pub mod Operation
pub mod Condition
pub mod Select
pub mod Statement
pub mod Balance
pub mod Connection
pub mod Iterator

-- ===== src/Mysql.antt =====
-- src/sqlgen/mysql: the text of a statement for MySQL.
pub mod Literal
pub mod Types
pub mod Value
pub mod Operation
pub mod Condition
pub mod Select
pub mod Statement
pub mod Balance
pub mod Iterator
pub mod Connection

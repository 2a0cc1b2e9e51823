-- ===== src/Lib.antt =====
-- A verification of sqlgen, an ORM and SQL query generator for C++20.
--
-- A program describes tables and queries by types. Templates turn these into a tree of statements
-- (include/sqlgen/dynamic), a printer of each database turns the tree into SQL text
-- (src/sqlgen/*/to_sql.cpp), and a connection (src/sqlgen/*/Connection.cpp) runs the text. A pool
-- lends connections to sessions, and a transaction object guards BEGIN, COMMIT and ROLLBACK on a
-- connection. This library starts at the tree of statements.
--
-- Strings: src/sqlgen/internal/strings/strings.cpp and `trim` of its header, with the functions'
--   names. A std::string is the list of its bytes, `Text`. The loops of `replace_all` and `split` get
--   one round more than the text has bytes; they do not end for an empty search text, where the model
--   runs out of fuel.
-- Numbers: std::to_string of the standard library on integers and doubles. A double is a sign, a
--   mantissa and a power of two; its print has six decimals and rounds half to even.
-- Dynamic: the structs of include/sqlgen/dynamic, by their names. The reserved names are changed
--   (`what` for the enums, `where_clause`, `as_name`), and a vector of a recursive type is a data type
--   beside it. `EnumNames` is rfl::enum_to_string of reflect-cpp, a parameter. Safe, SafeSelect and
--   SafeStatement say which names may stand in a text, as the printers do not escape names.
-- Sqlite, Postgres, Mysql and Duckdb: src/sqlgen/sqlite/to_sql.cpp and its likes for the other
--   databases, every function by its name, in Types, Value, Operation, Condition, Select and Statement.
--   The lambdas that a function declares are functions of their own. Duckdb/Safe says which names may
--   go into the name of a sequence, and Postgres/Safe which enumerations into a body between dollar quotes.
-- Scan: a reader of SQL text that follows quotes and parentheses, and readers of string literals: the
--   specification of the printers, written from the SQL standard's rules for quotes and, as the dialect
--   `mysql`, from those of MySQL, where names stand between backquotes and a backslash escapes. The
--   dialect `postgres` adds the bodies between two `$$`, which the next `$$` ends wherever it stands.
-- Ranges: the integer types of C++ against the columns that type_to_sql of Postgres, Mysql and Duckdb
--   asks for, with the ranges that the manuals of the databases give.
-- Postgres/Copy: `to_buffer` of src/sqlgen/postgres/Connection.cpp, and a reader of the format that the
--   COPY statement asks for, where a carriage return ends a row and the line `\.` the data.
-- Postgres/Connection: the other operations of src/sqlgen/postgres/Connection.cpp, with libpq as the
--   record `Libpq`; the random name of a prepared statement is an argument.
-- Sqlite/Connection: src/sqlgen/sqlite/Connection.cpp, and `write` of include/sqlgen/write.hpp. The
--   record `Sqlite` stands for the library sqlite3: the state of a handle, the calls, each of which may
--   fail, and two laws, that ROLLBACK leaves no transaction open and that a COMMIT that succeeds does.
-- Reading: include/sqlgen/Iterator.hpp and the loop of include/sqlgen/internal/to_container.hpp. The
--   iterator of a database is the interface `Cursor`; its abstract view is the list of the rows that it
--   still yields (Reading/Gather). The loop has as fuel one round more than there are rows.
-- Sqlite/Iterator, Postgres/Iterator and Mysql/Iterator: src/sqlgen/sqlite/Iterator.cpp and its likes.
--   The prepared statement of sqlite3, the server behind libpq and the result of a MySQL query are
--   parameters; what a server does with cursors and transaction blocks is stated where it is used.
-- Parsing: include/sqlgen/parsing, Parser_default.hpp for integers and Booleans, Parser_string.hpp and
--   Parser_optional.hpp. `stoll` and `stoi` are those of the standard library; an integer type is given
--   by its sign and half the count of its numbers.
-- Mysql/Connection: src/sqlgen/mysql/Connection.cpp on the record `Mysql`, its client library.
-- Batches: include/sqlgen/internal/write_or_insert.hpp. The batch size is an argument.
-- Pool: include/sqlgen/ConnectionPool.hpp and Session.hpp. What other threads do while `acquire`
--   sleeps is an argument; Pool/Sharing has their histories, with one scan of the flags, or one call that
--   clears or moves a flag, as a step, and Pool/Leaks what an assignment loses.
-- Transaction: include/sqlgen/Transaction.hpp. `Database` stands for the connection behind it. An
--   assignment releases the old connection, which its last owner closes; whether there are other owners
--   is an argument, as references are not counted. `destroy` is the body of the destructor.
-- Cache: include/sqlgen/cache.hpp. The map is a list of entries, a future the result that it gives, and
--   a query a function on the state of a database; the key is the SQL text.
-- Result: the Result type of rfl as the program uses it. Prelude has the shared names, Tests the
--   concrete inputs.
--
-- Not modelled: the connection to DuckDB and its iterator, the making of connections,
-- the conversion of other fields from and to texts, and the templates that build the tree of statements at
-- compile time. Integers have no bound: the absolute value of a duration and the
-- numbers of columns, rows and cached results are taken to fit the types of the source.
pub mod Prelude
pub mod Strings
pub mod Numbers
pub mod Dynamic
pub mod Scan
pub mod Sqlite
pub mod Postgres
pub mod Mysql
pub mod Duckdb
pub mod Ranges
pub mod Reading
pub mod Parsing
pub mod Pool
pub mod Result
pub mod Cache
pub mod Batches
pub mod Transaction
mod Tests

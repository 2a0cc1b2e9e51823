-- ===== src/Tests.antt =====
-- Concrete inputs for the theorems.
mod Sql
mod Data
mod Dialects
mod Sessions
mod Connections
mod Caching
mod Reading
mod Inserts
mod Fields
mod Writes

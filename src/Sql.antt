-- ===== src/Sql.antt =====
-- sqlite3/main.c: connections to SQLite and the evaluation of SQL.
pub mod Library
pub mod Parameters
pub mod Rows
pub mod Connection
pub mod Eval
pub mod Methods
pub mod Shut
mod Witnesses

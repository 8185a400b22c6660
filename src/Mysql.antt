-- ===== src/Mysql.antt =====
-- driver/mysql/dialect.go: the compiler from statements to MySQL's SQL with `?` placeholders.
pub mod Ident
pub mod Scan
pub mod Clauses
pub mod Conditions
pub mod Select
pub mod Write
pub mod Schema
mod Tests

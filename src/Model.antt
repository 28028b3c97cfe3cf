-- ===== src/Model.antt =====
-- The data of the program: enumerations, errors, text, rows, the database and the effects.
pub mod Enums
pub mod Errors
pub mod Text
pub mod Rows
pub mod World
pub mod Exec

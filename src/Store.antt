-- ===== src/Store.antt =====
-- src/modules/store
pub mod Lexer
pub mod Text
pub mod Value
pub mod Path
pub mod Clone
pub mod Merge
pub mod Parse
pub mod Write
pub mod Schema
pub mod Validate
mod Tests

-- ===== src/Json.antt =====
-- JSON values, their numbers and their printed form.
mod Defs
pub mod Number
pub mod Sprint
pub use Defs.*

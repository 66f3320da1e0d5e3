-- ===== src/Db.antt =====
-- The tables, and the operations on them that TypeORM carries out.
mod Entities
mod TypeOrm
pub mod Naming
pub use Entities.*
pub use TypeOrm.*

-- ===== src/Db/Database.antt =====
-- vqro/db/db.{h,cc}.
pub mod Read
pub mod GetSeries
pub mod Write
pub mod Open

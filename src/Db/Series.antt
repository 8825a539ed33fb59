-- ===== src/Db/Series.antt =====
-- vqro/db/series.{h,cc}: what is on disk and what still waits in the write buffer.
pub mod Read
pub mod Path

-- ===== src/Db/Directory.antt =====
-- vqro/db/datapoint_directory.{h,cc}: the datapoint files of one series, by their first timestamp.
pub mod Find
pub mod Files
pub mod Read
pub mod Write

-- ===== src/Db/SparseFile.antt =====
-- vqro/db/sparse_file.{h,cc}: a file of whole datapoints, appended in the order of their arrival.
pub mod Read
pub mod Laws
pub mod Versions
pub mod Complete
pub mod Write

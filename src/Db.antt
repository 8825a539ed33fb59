-- ===== src/Db.antt =====
-- The database library: vqro/db.
pub mod Datapoint
pub mod Order
pub mod ReadOp
pub mod SparseFile
pub mod WriteBuffer
pub mod Directory
pub mod Series
pub mod Database
pub mod WriteOp
pub mod Flush
pub mod RawBuffer
pub mod Decimal
pub mod FileName
pub mod ConstantFile
pub mod DenseFile
pub mod Optimizer
pub mod FileSystem
pub mod Search

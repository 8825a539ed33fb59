-- ===== src/Rpc.antt =====
-- vqro/rpc: the two services of the server, over the database's operations. The streams of gRPC are the
-- lists of what they carry.
pub mod Storage
pub mod Search

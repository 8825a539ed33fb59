-- ===== src/Db/WriteBuffer/Vector/OneAlloc.antt =====
-- GetIOVector where the datapoints that it may take lie in the first allocation.
use vqro.Db.WriteBuffer.{WriteBuffer}

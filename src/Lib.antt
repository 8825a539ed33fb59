-- ===== src/Lib.antt =====
-- Vaquero (vqro): a time-series database. A series is named by its labels; a datapoint is a
-- timestamp, a value and a duration. A write goes through the worker of its series into the write
-- buffer of the series, which is flushed to files of its directory; a read collects datapoints from
-- the files and the buffer, one client buffer after the other.
--
-- Files of this library and the code that they are about:
--   Base: Boolean tests, lists, int64_t as integers without overflow (signed overflow is undefined
--     in C++), and the outcome of a call: it returns, throws with a state, or is still running.
--   Worker: vqro/base/worker.h. A state is what the thread and its callers see; Step has a
--     constructor for each thing that one of them can do next. `limit` is the queue's limit,
--     `callers` a bound on the callers that are inside of Do at a time.
--   FileUtil: WriteVector, WriteValues and ReadValues of vqro/base/fileutil.{h,cc}; the operating
--     system's answers are a list. Handle is FileHandle, over the descriptors of the process.
--   Errors: the exceptions of vqro/base/{base,worker}.h and vqro/db/{db,sql_statement}.h.
--   Stats: ReadProcStat and LogResourceUsage of vqro/base/base.cc, over what is read in /proc.
--     Clock has TimeInMillis and TimeInMicros of vqro/base/base.h.
--   Db/Datapoint, Db/ReadOp, Db/WriteOp: vqro/db/{datapoint,read_op,write_op,datapoint_buffer}.h.
--     Db/WriteOp/Iterator has the operators of the iterators, on positions modulo 2 ^ 64.
--     The filled part of the client's buffer is a list, and storing at the cursor appends to it.
--   Db/Order: std::stable_sort, std::lower_bound and std::upper_bound on datapoints, by their
--     documented results.
--   Db/SparseFile: SparseFile::Read of vqro/db/sparse_file.cc, from the point where the file's
--     datapoints are in memory (FileUtil has the call that gets them there); Write has
--     SparseFile::Write, RemainingWritableDatapoints and FileIsTooBig.
--   Db/FileSystem: GetFileSize and CreateDirectory of vqro/base/fileutil.cc, over the interface
--     FileSystem of what is asked of the operating system.
--   Db/ConstantFile: Read and Write of vqro/db/constant_file.cc; rename() is an argument.
--   Db/DenseFile: Read and Write of vqro/db/dense_file.cc.
--   Db/Optimizer: the tests of vqro/db/storage_optimizer.cc, with AlmostEquals of
--     vqro/base/floatutil.h on bit patterns; its comparison with epsilon is an argument. Convert
--     has HandleSparseFileTooBig with its two conversions, Queue the handing over to a worker.
--   Db/FileName, Db/Decimal: GetPath and FromFilename of
--     vqro/db/{sparse,dense,constant}_file.{h,cc}, with std::to_string and strtoll as they are
--     documented; strtod is an argument.
--   Db/Directory: DatapointDirectory::Read, ReadFilenames and FindFirstPotentialFile of
--     vqro/db/datapoint_directory.{h,cc}, over the interface Files.DatapointFile, for class
--     DatapointFile (vqro/db/datapoint_file.h) and what the disk holds. Write has the loop of
--     DatapointDirectory::Write over the interface FileWriter, and Write/Whole the constructor,
--     Write as a whole, and sparse files as an instance of FileWriter.
--   Db/WriteBuffer: vqro/db/write_buffer.{h,cc}. Vector is GetIOVector.
--   Db/RawBuffer: GetIOVector of vqro/db/raw_buffer.h.
--   Db/Series: Series::Read of vqro/db/series.cc; Path is Series::Init, with HexString of
--     vqro/base/base.h.
--   Db/Database: Database::Read, Write and GetSeries of vqro/db/db.cc, over the read of a series
--     and its indexing; Open is the constructor and the destructor.
--   Db/Search: vqro/db/search_engine.cc and sql_statement.h, over the interface Sqlite. Query is
--     the SQL text, Batches the loop over the rows, Index what a series and its labels are stored
--     by, Open the constructor, Statement the class SqlStatement.
--   Db/Flush: GetWorker of vqro/db/db.cc, and Series::FlushBufferedDatapoints over the write of a
--     directory. Series has writes and flushes of a series together with its directory and the disk,
--     Series/Race the flusher and the worker as steps in any order, Rounds the rounds of
--     FlushWriteBuffers over the readings of the clock.
--   Rpc: the services of vqro/rpc/{storage,search}_service.h. What a stream carries is a list; the
--     search engine's callback is the service's.
--   Client: times, units and constraints of vqro_read.cc; what it takes from third parties is the
--     record Parsers. Client/Read is the rest of vqro_read.cc, Client/Write the loop of
--     vqro_write.cc, with its client and the ends of its main in Stream, and Client/Stdin the lines
--     that both read, with JsonCpp as the interface Json.
--     Client/Print is what vqro_read.cc prints of the streams of the server.
--   Server: Shutdown and HandleSignals of vqro_server.cc; Threads has RunServer and the thread of the
--     signals as steps in any order, Main has main.
--   Tests: runs at concrete inputs, and each result at one.
--
-- Fuel: FindFirstPotentialFile, DatapointDirectory::Write, CreateDirectory and Database::Read have
-- as many rounds as their caller gives, and an outcome for a loop that is still going on; the
-- copying loop of SparseFile::Read has one round for each datapoint, and GetIOVector one for each
-- position, since each round passes one at least.
--
-- FlushWriteBuffers has no end in the source: it is modelled for any number of rounds.
--
-- Not modelled: the function regexp of the search engine, which calls RE2; the life of the texts that
-- are bound to SQL statements; futures; the environment, thread identifiers, backtraces and
-- GetCurrentWorkingDirectory; the controller, whose bodies are empty; and generated code. Logging,
-- clocks and failures of allocation are left out.
pub mod Base
pub mod Worker
pub mod FileUtil
pub mod Errors
pub mod Stats
pub mod Db
pub mod Client
pub mod Rpc
pub mod Server
pub mod Tests

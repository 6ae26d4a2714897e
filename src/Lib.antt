-- ===== src/Lib.antt =====
-- NetChunk keeps files on FTP servers: it cuts a file into chunks, hashes each chunk and the file,
-- stores every chunk on several servers, records where in a manifest, and puts the file together
-- again from the chunks. This library models the parts of the program that do this without a
-- network, and what they promise.
--
-- The parts and the files that model them:
-- * src/crypto.c, include/crypto.h: `Crypto`. `Words` holds the operations on words, `Compress`
--   the compression of a block (`sha256_transform`), `Context` the contexts
--   (`netchunk_sha256_init`, `_update`, `_final`, `_hash`, `_hash_file`), `Hex` the texts of hashes.
--   `Padding` defines the digest of a message as a whole, for `Streaming`, `PadLaws` and `Final`.
-- * src/chunker.c, include/chunker.h: `Chunker`. `Types` holds the structs, `Chunk` a single chunk,
--   `Locations` its table of servers, `Stream` the reading of a file as chunks
--   (`netchunk_chunker_init`, `_next_chunk`), `Reconstruct` the way back, `Stats` the sums over
--   chunks, `Count` the number of chunks. The chunker hashes with `Crypto.Context`. `Cut` says what it is
--   for chunks to be a file, and `File` and `Whole` follow the calls from the first to the last.
-- * src/config.c, include/config.h: `Config`. `Types` holds the structs, `Values` the texts of
--   values, `Names` the names of codes and levels, `Path` the expansion and the search of paths,
--   `Parse` the sections, `Load` the lines, the defaults, the checks and the load. `ServerBounds`
--   and `Bounds` hold the invariant of the arrays, `LoadBounds` that of a whole load.
-- * include/ftp_client.h, src/ftp_client.c: `Ftp`. `Buffer` is the memory buffer of a transfer,
--   `Connection` one connection with its retries (`perform_curl_operation`), `Transfers` the operations
--   on it, and `Pool` the pool: `pool_acquire` and `pool_release` are atomic, since the source holds the
--   mutex of the pool throughout, and the relation `Step` puts the calls of any number of callers in
--   any order.
--   `Remote` is the interface of the chunk and manifest functions, a record over the type of all that
--   stands outside the process; the bodies in the source, which do nothing, are its value `client`,
--   and the parts that use the FTP client are written and proved for every value. `Shelf` is one over
--   servers in memory, for the tests.
-- * src/manifest.c, include/manifest.h: `Manifest`. `Types` holds the struct, `Build` how a manifest is
--   made and filled, `Check` the validation, the statistics and the search for chunks with too few
--   replicas, `Files` the files, with every state of the file system that a write passes through.
--   `Json` is the conversion to and from JSON, over the operations of cJSON that `Cjson` lists as a
--   record, with their documented laws as another; `TreeJson` is a small JSON library that meets the laws,
--   for the tests.
-- * src/repair.c, include/repair.h: `Repair`. `Health` checks and cleans up a chunk, `Replicate` chooses
--   servers and adds replicas (`netchunk_repair_chunk`), `File` repairs a file or all files, `Rebalance`
--   moves chunks from servers with many to servers with few, `System` counts the files by their health.
-- * src/netchunk.c, include/netchunk.h: `Api`. `Download` is `netchunk_download`, with the manifest, the
--   server's ids, the attempts and the output file; `Upload` is `netchunk_upload`, which sends the
--   chunks of `Chunker.Stream` and enters them with `Manifest.Build`; `Operations` holds delete, verify,
--   health check and list. They use `Manifest`, `Chunker.Chunk` for the integrity of a chunk, and `Ftp.Remote`.
-- * src/logger.c, include/logger.h: `Logger`. `Types` holds the structs and the line of a message, `Write`
--   the operations (`netchunk_logger_init`, `_rotate`, `_vlog`); `History` is the abstract log, which
--   knows no names of files, and `Rotation`, `Shift`, `Rotated` and `Refine` relate the two.
-- * The command line, src/main.c: `Cli`. `Arguments` is `parse_arguments` over the answers of
--   `getopt_long`, `Run` is `main`
--   over the record `Engine` of the operations it calls, for every value of it; `Parsed` and `Sessions`
--   say which calls can happen.
-- `Base` holds what the parts share, and `Libc` what they use of the C library: texts are lists of
-- character codes without the NUL at the end, and `strtol`, `strtoul`, `strcmp`, `strcasecmp`,
-- `strchr` and the decimal `snprintf` are written out as documented.
--
-- How the code is translated: a struct is a record, and a function that fills or changes one takes
-- and returns it; a function with an error code returns the code beside what it leaves, or a
-- `Result` where an error leaves nothing that is used. Pointers to structs are not NULL, so that
-- the guards against NULL are not modelled, except where a NULL is state (the data of a chunk, the
-- open file). Numbers are natural numbers, and `u8`, `u32` and `u64` write out where the C type
-- wraps; an `int` or a `long` is an integer. What the system answers (the files, the reads
-- and writes, `fclose` and `unlink`, `malloc`, `strdup`, the time, the random bytes, `qsort`, the environment) is an argument.
-- Progress callbacks are left out.
--
-- Loops are recursion on lists. The loop of an upload takes a bound on its turns and gives no result
-- where it is too small; each turn but the last takes a byte off the file at least. Two more take a bound: the loop over whole blocks takes the input's
-- length, which is at least the number of blocks, and the loop of calls for chunks takes one more
-- than the announced number of chunks, for the call that meets the end of the file. The loop of
-- retries of an FTP operation takes the three that the source allows, after which its own test ends
-- it; the loops of attempts and of new replicas count down from their bounds in the source.
-- The `while` loop of a rebalance takes a bound too; a server gives up a chunk on every turn.
--
-- Not modelled: the test of servers; what `main` prints; what strftime and vsnprintf print; the source of random bytes; cJSON and libcurl, which
-- are not part of the sources.
pub mod Base
pub mod Libc
pub mod Crypto
pub mod Chunker
pub mod Config
pub mod Ftp
pub mod Manifest
pub mod Repair
pub mod Logger
pub mod Cli
pub mod Api

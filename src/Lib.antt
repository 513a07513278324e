-- ===== src/Lib.antt =====
-- matrixdb: a verification library for the CPU engine of the database.
--
-- Program parts. A point-op store (an open-addressing hash table) serves reads and writes; a
-- write-ahead log makes the writes durable, with a commit marker behind the puts of a transaction; the
-- engine replays the log when it starts, and carries out batches of reads and writes page by page. A
-- catalog of columns answers queries, given as a record or as SQL text: aggregate kernels reduce the columns, a tier manager counts the accesses and plans which column moves between memory and disk,
-- and an executor carries out the plan. A server reads requests, checks who asks and what the policy
-- grants, and calls the engine; a concurrent server answers some queries under a shared lock. A ring
-- between two threads feeds the engine.
--
-- Files, with the code that each one models:
--   Prelude (and below): shared names, lists, tests, bytes of machine words, masks. No code of its own.
--   Kv: kv_store.hpp. `put`, `get`, `capacity`, `checksum`, `for_each`, `round_up_pow2` and the
--     constructor (`new`), under their names. The loops of `put` and `get` are structural on the probes
--     that are left, mask + 1 at the start as in the source; `round_up_pow2` has 64 rounds of fuel, one
--     for each bit of a `size_t`.
--     Kv/Probe: the walk that `get` and `put` share. Kv/Invariant: what a valid store is. Kv/Lookup,
--     Kv/Full, Kv/Capacity, Kv/Entries, Kv/Reload: the operations against each other. Kv/Tests: examples.
--   Wal: cold_store.hpp. `append_put`, `append_txn_put`, `append_commit`, `truncate`, `replay`,
--     `matrix_crc32` under their names; a file is its bytes, `synced` counts those that `fsync` has
--     secured. The replay's fuel is the length of the file: every record takes bytes.
--     Wal/Crc, Wal/Frame: one record. Wal/Log: the log as entries, and what a replay means by them.
--     Wal/Replay, Wal/Crash, Wal/Group, Wal/Restart: replay of whole, cut and reopened logs.
--     Wal/Tests: examples.
--   Engine: the point operations of `CPUMockEngine` in compute_mock.cpp: `begin`, `txn_put`, `commit`,
--     `rollback`, `checkpoint`, `shutdown`, `kv_get`, `kv_range`, `kv_range_sorted`,
--     `apply_committed_write`, `save_checkpoint`, `load_checkpoint` under their names, `write_op` and
--     `read_op` for the two branches of `execute_batch`, `start` for the constructor with a log. It uses
--     Kv for `kv_` and Wal for `cold_store_`. Asserts are compiled out, as in a release build.
--     Engine/Durable, Engine/Recover: the log against the store. Engine/Snapshot: the checkpoint file.
--     Engine/Index: the ordered index.
--   Batch: `matrix_page_of` and `matrix_bin_by_page` of compute.hpp and `execute_batch` of
--     compute_mock.cpp, over Engine. The loops of `matrix_bin_by_page` are `count_pages`, `offsets_from`
--     and `scatter`; `run_from` is the loop over one page. Batch/Counts, Batch/Scatter, Batch/Bins: the
--     counting sort. Batch/Order: the batch. Batch/Tests: an example.
--   Reduce: the CPU reducers of compute.hpp, under their names, over a number type (`Num`): `u32`, `i64`
--     and, as a parameter, the arithmetic of `double`. Reduce/Grouped: GROUP BY. Reduce/Cells,
--     Reduce/Select, Reduce/Values: the kernels against each other and against what they compute.
--   Tier: the view that the engine has of a column, its bytes and its tier, with the migration of
--     tiered_column.hpp and `MigrationExecutor::apply` of migration_executor.hpp. `none` is an abort.
--     Tier/Columns: `TieredColumn` as it is, with its host buffer and its file; the disk is a parameter
--     (`Disk`), and so is what goes wrong on it. Tier/Refine: the view against the columns.
--     Tier/Cost: cost_model.hpp and the figures of tier_model.hpp. Tier/Manager, Tier/Pass:
--     tier_manager.hpp. The arithmetic of double is a parameter (`Real`). The eviction loop has as many
--     rounds as there are columns: each round moves one down. Tier/Plans, Tier/Lockstep, Tier/Capacity,
--     Tier/Victims, Tier/Cpu: passes of the manager. Tier/Tests: examples.
--   Catalog: the columns, types and null masks of `CPUMockEngine` in compute_mock.cpp, in the build
--     without CUDA, with the tier manager as an interface (`TierApi`, which Tier/Pass fills). Asserts and
--     exceptions give `none`. Catalog/Borrow: bringing a column to memory for a scan and giving it back;
--     Catalog/Load: loading and growing of columns. Catalog/Rebalance: the pass behind a scan.
--   Query: compute_mock.cpp, under its names, with the arithmetic of double as a parameter (`Double`).
--     Query/Execute: `execute_query_impl` and what it calls. Query/Shared: `execute_query_shared_impl`.
--     Query/Joins, Query/Project: joins, distinct values, projection, HAVING. Query/Answer: the checks
--     and the kernels on the bytes alone. Query/Runs, Query/Scalar, Query/Cross, Query/Correct: the code
--     against them. Query/Rows (and below): what a query asks for, row by row. Query/Meaning: which queries
--     are answered, with what, and why others are refused.
--     Query/Concurrent: the shared path against the exclusive one. Query/Pairs, Query/Selected: joins and
--     projections. Query/Growth: columns that grow. Query/Tests: examples.
--   Sql: `matrixparse_tokenize` of compute_mock.cpp; a text is the list of its bytes, and the rounds of the
--     tokenizer are at most its length, since each takes a character. Sql/Strings:
--     `load_string_column_dict`, `string_encode`, `string_decode` and the filters on strings of the parser.
--     Sql/Literals, Sql/Where, Sql/Parse: `parse_query`, with `set_bound`, the names of columns and
--     `std::from_chars`; `strtod` is a parameter. Sql/Entry: `avg_query`, `top_query`, `having_query`,
--     `project_query`, `distinct_query`, `average` and `top_groups`; `std::partial_sort` and the arithmetic
--     of an average are parameters. Sql/Tokens: tokens written and read. Sql/Dict, Sql/Codes: dictionaries,
--     and comparisons on codes. Sql/Parse/Refusals, Sql/Parse/Ungrouped, Sql/Parse/Admits: what the parser
--     lets through. Sql/Entry/Rewritten: queries that are written out and parsed again. Sql/Tests: examples.
--   Server: server.hpp. Server/Wire: the codec. Server/Access: `AccessPolicy` and `Authenticator`.
--     Server/Dispatch: `serve_core` and the `matrix_serve` overloads, over the interface `EngineApi`.
--     Server/Gate, Server/Grants: what a request can do.
--     Server/Concurrent: `ConcurrentServer::serve` of concurrent_server.hpp, over what the engine promises
--     of its shared read path (`Agrees`), the same promise that Query/Concurrent is about.
--     Server/Net: the framed connections of server_tcp.hpp and `MatrixClient` of client.hpp, over a socket
--     (`Socket`) whose calls may be short or fail; `recv_all` and `send_all` have a round for each byte, for
--     each takes one at least, and the loop of a connection has fuel. Server/Net/Stream: sockets on which
--     nothing fails. Server/Net/Session, Server/Net/Client: a connection and a call.
--     Tests beside each part hold examples.
--   Ring: ring_buffer.hpp. `try_emplace` and `try_pop` as three steps each (`emplace_look`,
--     `emplace_write`, `emplace_publish`, `pop_look`, `pop_read`, `pop_release`), `size` and `empty`.
--     Ring/World: their interleavings. Ring/Inv, Ring/Cursors, Ring/Fifo: what they keep. Ring/Slots: slots and
--     histories.
--
-- Words. A machine word is a natural number below its bound; where the source wraps, `% 2 ^ w` is
-- written out. Bytes of words are in little-endian order, as on the hosts the program is built for.
--
-- Not modelled: the GPU back end (compute_cuda.cuh), the accept loops and their threads, `query_multi`,
-- string columns without a dictionary, the router, latency statistics, catalog snapshots, files of columns
-- and CSV, the tools. They are other hardware, system calls, or not there yet.
pub mod Prelude
pub mod Kv
pub mod Wal
pub mod Engine
pub mod Batch
pub mod Reduce
pub mod Tier
pub mod Catalog
pub mod Query
pub mod Sql
pub mod Server
pub mod Ring

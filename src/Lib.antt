-- ===== src/Lib.antt =====
-- QuackGIS: a server that speaks the PostgreSQL protocol and answers from DuckDB, with an edge that
-- carries its connections over Iroh. This library models the parts that decide and transform, and
-- leaves out those that only move bytes between other libraries.
--
-- The parts and their files. Paths of the code are from the root of the repository.
-- - Base: Boolean tests, lists over native numbers, results with `?` as bind, integers of Rust's
--   widths.
-- - Edge: crates/quackgis-edge/src/lib.rs. Edge/Protocol has the errors, protocols and codecs,
--   Edge/Codec the offers and the selection (CompressionPolicy), Edge/Messages the signed messages,
--   Edge/Lease the leases (AccessLeaseClaims, SignedAccessLease) and Edge/Handshake the lease request,
--   the authentication and the stream prelude (LeaseRequest, EdgeAuthenticate, StreamPrelude). A
--   client signs with its credential, a worker verifies with the key of the bootstrap; the lease is
--   what both hold. Edge/Iroh is the parameter for keys and signatures, and Messages.Json the one for
--   serde_json.
-- - Compression: crates/quackgis-edge/src/compression.rs, the two halves that the edge puts around a
--   stream once a codec is selected. Compression/Format has the block format, Compression/Metrics the
--   counters (DirectionMetrics), Compression/Encoder copy_compressed and Compression/Decoder
--   copy_decompressed. lz4_flex is the parameter Format.Lz4.
-- - Role: crates/quackgis-server/src/role.rs. Role/Model has the configured roles, memberships, owners
--   and grants (RoleCatalog), Role/Worklist the search over memberships, Role/Catalog the decisions
--   about roles, schemas and tables, and Role/Session the state of a session with SET ROLE, RESET ROLE,
--   request settings and the end of a transaction (RoleSessionState). Role/Config has the configuration
--   document, with its checks on names (Names), the search for membership cycles (Cycles) and the
--   conversion to a catalog (Convert).
-- - Copy: crates/quackgis-server/src/pgwire_server/copy_text.rs. Copy/Errors has the error and the
--   panics, Copy/Escapes decode_copy_field, Copy/Values the parsers of integers, Booleans and
--   hexadecimal text, Copy/Rows the rows before they are typed (CopyRows), Copy/Columns the Arrow batch
--   of the rows (build_batch, copy_array), Copy/Batches the cutting into bounded batches, Copy/Decoder
--   the methods of CopyTextDecoder and Copy/Push its `push` and `finish`. Copy/Arrow is the parameter
--   for Arrow, chrono and rust_decimal.
-- - Admission: crates/quackgis-server/src/execution_control.rs. Admission/Classes has the operations of
--   one class of operations, Admission/Controller the steps of AdmissionController::acquire and of the
--   drop of a permit, Admission/Pool those of BlockingWorkerPool, and Admission/Registry the
--   ActiveQueryRegistry. Requests are counted by how far they have come, since the semaphores of tokio
--   do not tell them apart, and a run is any order of steps. A step of acquire or of a drop takes or
--   gives back permits, with the changes of the counters that the code makes around it one by one; the
--   states between these are not modelled.
-- - Server: crates/quackgis-server/src/lifecycle.rs, auth.rs and audit.rs. Server/Lifecycle has the
--   atomic actions of RuntimeLifecycle, and Server/Lifecycle/Steps the threads that take them in any
--   order; Server/Auth has AuthConfig with its policies, Server/Auth/Allowlist the parsing of allowlists,
--   and Server/Audit the labels of audit events. A session of the role model starts from an account.
-- - Storage: crates/quackgis-server/src/duckdb_adbc_storage.rs. Storage/Transaction has the transaction
--   state of a storage session, with the answers of the native connection as inputs; it counts its
--   transactions with the lifecycle of the server. Storage/Borrowing has what takes the connection of a
--   session away until it ends: query streams, updates (DuckDbUpdateOperation) and ingestion.
-- - Migrate: crates/quackgis-migrate/src. Migrate/Config has the configuration and its validation,
--   Migrate/Inventory the source, Migrate/Plan the plan of a column (classify_column), Plan/Tables that
--   of a table and Plan/Preflight the preflight of all (build_preflight), and Migrate/Checksum the
--   checksum of rows (MultisetChecksum). The preflight reads the inventory under a validated
--   configuration. The SQL parser, the `{:?}` form of a text and SHA-256 are parameters.
-- - Rest: the REST gateway (crates/quackgis-rest/src/main.rs). Rest/Settings.antt has the roles, tables,
--   labels and secret that it is given, Rest/Jwt.antt the verification of a token (JwtVerifier), and
--   Rest/Cache.antt the cache of schemas (role_schema), which takes the answers of the database as
--   arguments. Roles that pass go to `SET LOCAL ROLE` of a session of Role.
-- - Tests: concrete inputs.
--
-- State is passed on: a method that changes its object returns the new one with its result. An error
-- is `err`; what a failing operation of the COPY decoder leaves of it is not modelled. Words
-- of 32 and 64 bits wrap or saturate as the code's operations do. Streams are lists of the bytes, or of
-- the results of reads, that they deliver.
--
-- Bounds and fuel. The search over memberships runs on `search_fuel`, the number of edges and two
-- more, since an edge adds one role at most; copy_decompressed on the bytes of its stream and one more,
-- since a block has a byte at least; decode_loop on the length of its field; bounded_batches on the
-- number of rows, since each half has fewer; push_loop on the bytes of its chunk and one more, since a
-- round takes a byte or meets the end marker. Fuel that runs out is a result of its own (`none` or
-- `exhausted`), never a good one.
--
-- Not modelled: sockets, tasks, files, time, command lines and metrics output; the calls of the ADBC
-- driver; the rewriting of SQL, which works on the syntax trees of other crates; the
-- vendored crates; the deadline task of operations, which sleeps and cancels; the joins of worker
-- threads; and, for now, statement policy, the copying
-- and promotion of a migration, the configuration of the edge, and the connections, requests and SQL of
-- the REST gateway.
pub mod Admission
pub mod Base
pub mod Edge
pub mod Compression
pub mod Copy
pub mod Migrate
pub mod Rest
pub mod Role
pub mod Server
pub mod Storage
mod Tests

-- ===== src/Lib.antt =====
-- Light Stream: a development about the replicated state machine of its groups and about the
-- domain values that they exchange.
--
-- The program is a replicated log service. A cluster has one control group, which keeps the catalog
-- and runs logical exports, and data groups, which keep the records of partitions. Each group is a
-- Raft group whose log entries are commands; `GroupDb` of crates/light-stream-storage applies them,
-- one entry at a time, to RocksDB. What is modelled is this application of commands, which must give
-- the same state on every replica, and the types of crates/light-stream-core that it is written
-- with.
--
-- The files and what they model:
--   Shared             the Boolean tests, u64 arithmetic, sorted sets (BTreeSet) and maps
--   Core               crates/light-stream-core/src: Identity (identity.rs, consensus.rs), Error
--                      (error.rs), Cursor (cursor.rs), Publish (publish.rs), Checkpoint
--                      (checkpoint.rs), Bookmark (bookmark.rs), Replay (replay.rs), Catalog (parts of
--                      catalog.rs, bootstrap.rs and recovery.rs), Security (parts of security.rs and
--                      recovery.rs), Operations (operations.rs) with
--                      Selection (ExportSelection), Fence (MutationFenceState), Active
--                      (ActiveExport) and Receipt (ExportReceipt, ExportStatus)
--   Storage.*          crates/light-stream-storage/src/lib.rs, except where another file is named:
--   Storage.Keys       the keys of the store
--   Storage.State      the stored values, and the state of a group
--   Storage.Result     ApplyResult
--   Storage.Retention  crates/light-stream-storage/src/retention.rs
--   Storage.Sessions   the window of sequence numbers that a session retains
--   Storage.Mutations  prior_mutation_result and store_mutation_result
--   Storage.Checkpoints  apply_checkpoint_mutation
--   Storage.Publish    PublishApplyTxn: Records is the loop over the records of a publish, Apply is
--                      apply_one and apply_publish_many, Replay is replay_publish and
--                      replay_publish_many, for a group whose fence is held
--   Storage.Exports    apply_export and the handlers of the export commands, Commands and
--                      Commands.Finish
--   Storage.Leases     the lease clock, expire_due_leases and replay_range_bytes; Leases.Commands is the
--                      admission, renewal and release of a replay lease
--   Storage.Reclaim    apply_maintain_retention and its loop over the records below the floor
--   Storage.Floor      apply_advance_retention
--   Storage.Bootstrap  apply_bootstrap and apply_bootstrap_control
--   Storage.Catalog    apply_create_stream; Catalog.Changes is the commands that move a stream through
--                      its lifecycle
--   Storage.Bookmarks  the bookmarks of partitions; Bookmarks.Streams is those of streams
--   Storage.Fetch      fetch and fetch_protected
--   Storage.Dispatch   apply_command with its gate, and replay_included_command, of these commands
--   Examples           concrete states and requests
-- The remaining modules hold lemmas and theorems about the module above them: Limits, Selection.Sorted,
-- Phases, Groups, Retries, Outcome, Clock, Window, Mutations.Replay, Cursors, Written, Offsets,
-- Stages, Appends, Again, Many, Contiguous, Neighbours, Summed, Released, Agrees, Control, Requests,
-- Table, Expired,
-- Accounts, Admission, Changes of the leases, Maintained, Budget, Progress, Deleted, Limits, Payloads,
-- Untouched, Maintain, Lowered, Kept, Floor.Commands, Advance, Names, Lifecycle, Effects,
-- Catalog.Commands,
-- Index, Pages, Frozen, Dispatch.Fence and Stuck.
--
-- How the code is represented:
--   * A u64 is a natural number; every addition that the code checks is checked against 2^64 - 1, and
--     a saturating one saturates. The payload slot is cut to 32 bits as `slot as u32` does.
--   * A UUID, a numeric identity and a 32-byte digest are numbers, a name is its text. The parsers of
--     names are left out: a name is taken as accepted.
--   * The store is a record, `GroupState`, with a field for each key or key range of the active
--     bank. Ranges that are only read by key are functions of the key, ranges that are scanned are
--     association lists. A handler reads the state as it was before the entry; what its `WriteBatch`
--     puts and deletes is made on a second state, which begins as the first.
--   * An `io::Error` is the error side of `Result` with its message, and drops the batch; a rejection
--     is a value of `ApplyResult`.
--   * Digests (SHA-256 of serialised values) are functions in `GroupDb`, or parameters: nothing is
--     assumed of them.
--   * A `BTreeMap` or `BTreeSet` is the list of its entries in the order of the keys.
--   * Recursion is on lists, on the number of partitions in `place`, and on fuel in `reclaim`, the loop
--     of `apply_maintain_retention`, which has a unit for each offset from the reclaim cursor to the
--     floor: each turn that goes on moves the cursor forward, at most to the floor, where the loop's
--     test stops it.
--   * A panic (an empty group pool, which a bootstrap refuses) is on the error side too.
--   * What the iterator of RocksDB yields is an argument of the reads, a list; a theorem says which
--     records the list is taken to hold.
--
-- Not modelled: the Raft log, votes, membership and snapshots (OpenRaft and RocksDB are third-party
-- code), the encoding of keys and values, schema migration and state banks beyond the ownership bits,
-- the administration and security commands, the command `Publish`, the status queries and the pages of bookmarks and streams, and the crates
-- light-stream-server, light-stream-client, light-stream-cli, light-stream-proto, light-stream-export
-- and light-stream-testkit.
pub mod Shared
pub mod Core
pub mod Storage
pub mod Examples

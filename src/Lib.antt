-- ===== src/Lib.antt =====
-- kfuse is an overlay file system. The lower tree is read only; what a session changes is kept as an
-- overlay ("upper") in memory, every change is an event in a Kafka log, the bytes written are blobs
-- in an object store, and the overlay is rebuilt from the log, or from a state image and the log's
-- rest.
--
-- The parts, and the files that model them:
--   Api        api/kfusev1/envelope.go and the events of api/events.proto.
--   Upper      internal/upper. `Extents` is the map from file ranges to blob ranges (insertExtent,
--              coalesce, clipExtents), `Path` is NormalizePath and the prefix tests, `State` the types
--              Node, AttrOverride and Upper, `Query` the readers (Lookup to FileSize), `Check` is
--              check.go, `Subtree` the moves and deletions of a rename, `Apply` is Apply and Replay, and
--              `Serialize` is serialize.go.
--   Fs         internal/fs. `Merge` is mergeExtents and extentBytes, `Window` is readWindow, `Errno` is
--              errno.go, `Lower` has the helpers of lower.go on the lower tree, `Listing` its
--              mergedEntries and mergedEmpty, `Attrs` the attributes of node.go, `Resolve` is merged.go,
--              `Handle` has the reads and writes of handle.go, and `Nodes` the operations of node.go.
--   Session    internal/session/session.go. `Ports` is what a session uses: the EventLog interface and
--              the registry's state images. `Commit` is the commit pipeline (commit, commitLocked and
--              the Commit methods), `Recover` is RestoreUpper, reconstruct, OpenSession, NewWithState and
--              Checkpoint. `Machine` is the life of a session as a step relation: commits, checkpoints,
--              the loss of the lease, appends of other sessions and restarts, in any order. `Origin` is
--              NewSession and Branch.
--   Config     internal/config: ids.go, which ids may stand in an object key, and in `Load` config.go.
--   Registry   internal/registry, over an object store. `Lease` is lease.go, `Image` is SaveStateImage and
--              LatestStateImage of state.go, and `Records` the session records, the index of a lower
--              tree's sessions and the records of branches.
--   Blobstore  internal/blobstore/blobstore.go: the blobs, over an object store.
--   Kafkalog   internal/kafkalog/kafkalog.go. `Read` is PartitionFor, the retry delay, ReadSessionTo and
--              its bounded reader, and `Log` the client around them: Append, the retries of the newest
--              offset, ReadSession and TailOffset on a broker.
--   Daemon     internal/daemon/lifecycle.go. `Lifecycle` is the run of a served mount, as the list of
--              what it does, `Protocol` a checker of the order that Serve documents, which keeps what is
--              held, what was taken and whether the checkpoints are done, and `Writers` the mounts of one
--              session with their heartbeats, as a step relation: a call of the lease is a read and a
--              write, and calls may overlap, since the lease is no atomic lock.
--   System     a session on the Kafka log and on the images of the registry.
--   Tests      a log, a broker and stores in memory, and the theorems at concrete inputs.
-- The modules below these hold the proofs. A session validates and checks an event, appends it to the log
-- (Kafkalog) and applies it to its overlay (Upper); the FUSE operations resolve a path over the overlay
-- and the lower tree, check what POSIX wants of it, and commit one event to the session; a read fills what
-- a file's extents name over the bytes of the lower file (Fs).
--
-- Conventions. A Go string or byte slice is a list of bytes. An int64 or uint64 is its 64-bit
-- pattern, a number below 2 ^ 64: `add64`, `sub64` wrap around, `slt` and `sle` compare as signed. A
-- map with string keys is an association list sorted by the key. An error is `none`, a constructor
-- of an error type, or a constructor of the answer; a Go panic is a constructor too. The mutexes are
-- not modelled: what the program runs under a lock is one function.
--
-- Fuel. The two walks up the ancestors of a path (LowerPath, Hidden) have as much fuel as the path
-- has bytes, and one: each round cuts the path at a slash. The newest offset is asked for five times at
-- most, as in the source, and printing a number has the number as fuel. All other loops are structural recursion,
-- on a list of extents, of keys, of events or of fetched messages.
--
-- Parameters. The lower tree is a record of functions from a path to what the system calls on it
-- return, and does not change; what an error of the log or of the blob store wraps is the parameter
-- `cause` of the operations that answer an errno. The object store is a record of operations, with
-- its law, and where they matter what a failed write leaves and that it keeps a history of its
-- writes; SHA-256 is a function; to the readers of a file the blob store is a function from a blob
-- id to its bytes, and to the writers one from bytes to an id; the event log and the image store are
-- records of operations, with stated laws; encoding/json is a pair of functions, of which a round
-- trip assumes that it decodes the one text; net/url's Parse is a function; the consumer of a
-- partition is the list of its answers, from the oldest offset on; decoding and encoding an event are
-- functions. The broker is a record of what the client's calls answer, with its promises as laws: the
-- producer retries a send and is not idempotent, so a sent message is stored any number of times,
-- once at least if it is acknowledged. That no retry is stored is an assumption of its own (IsOnce),
-- which the theorem about the whole system has. What the calls of a mount answer is a record of
-- answers.
--
-- Not modelled: the mounting, the inodes and file handles of go-fuse, Statfs and the reads that pass
-- through to a lower file (internal/fs), ListByLower of internal/registry, the control socket, the
-- pidfiles and the detached process of internal/daemon, and the command line, which are mostly I/O around
-- these parts; generated code. All mounts read one clock. A call of the log that is given up (awaitCtx) is
-- an error; that its message may land after the session has gone on is not modelled. The client that a replay makes is not kept in the model, and
-- the partition count is fixed for the life of a log, as after NewStack. The life of a session (`Machine`)
-- begins with NewSession: that of a branch, whose first image is its parent's overlay and not the
-- replay of its own log, is modelled up to its first opening.
pub mod Api
pub mod Blobstore
pub mod Config
pub mod Daemon
pub mod Fs
pub mod Kafkalog
pub mod Prelude
pub mod Registry
pub mod Session
pub mod System
pub mod Tests
pub mod Upper

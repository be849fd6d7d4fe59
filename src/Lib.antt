-- ===== src/Lib.antt =====
-- mobfs mounts or mirrors a remote directory: a daemon serves a tree, a client scans, plans and
-- transfers, and a virtual file system caches what it reads. This library models the parts that
-- decide what happens to files and proves what they promise. Paths below are from the repository's
-- root.
--
--   * Error.antt: src/error.rs, the error type and results.
--   * Paths.antt: the helpers on relative paths of src/vfs.rs and src/local.rs, what the change
--     feed calls a temporary file (src/changes.rs), and safe_join of src/daemon.rs, which confines a
--     request to the served root. A string is the list of its bytes.
--   * Snapshot.antt: src/snapshot.rs. A scan is an ordered map from paths to entry metadata; the
--     push, pull, sync and status plans are functions of two or three scans.
--   * Vfs/Inodes.antt: Inodes of src/vfs.rs, the two tables between paths and inode numbers. An
--     ordered map is an association list in ascending order of its keys, and the order is part of
--     the validity that each operation keeps. A hash map is modelled the same way.
--   * Vfs/Blocks.antt: BlockStore and BlockCache of src/vfs.rs. One lock guards the store, so each
--     operation is one step. The loop that makes room is structural recursion on the recency list,
--     which bounds its turns without fuel. Vfs/Blocks/Late.antt: the operations of several readers and
--     writers as a relation of steps on the store.
--   * Vfs/Errno.antt and Vfs/State.antt: the errors of a mount, its tables as one record, the client of
--     the daemon as an interface, and steps that may fail. Vfs/Names.antt: the helpers on the tables.
--     Vfs/Lookup.antt, Vfs/Create.antt, Vfs/Move.antt and Vfs/Attrs.antt: the operations of Vfs in
--     src/vfs.rs on names, on the tree and on attributes. Each is one step: no other operation runs
--     between its parts, but uploads may be done where it waits for them.
--   * Vfs/Uploads.antt: dispatch_pending, the waits and the flushes of src/vfs.rs. Which upload is done
--     next is an argument, so a theorem for all of them is one for every order. A wait takes at most
--     as many rounds as uploads are in flight. Vfs/Writes.antt: write and fsync.
--   * Vfs/Reads.antt and Vfs/Readahead.antt: into_blocks, the fetches of the block cache, read and
--     schedule_readahead. The loops count the blocks that are left; a prefetch is done at once.
--   * Vfs/Journal.antt and Vfs/Mutate.antt: the journal of a mount, its replay, and mutate with its
--     recovery. The file of the journal is an interface; a line is what it parses to.
--   * Vfs/Feed.antt: apply_change, invalidate_all and a round of run_change_feed.
--   * Protocol.antt: the messages of src/protocol.rs.
--   * Changes.antt: the change feed of src/changes.rs. A critical section is one step on the state;
--     the clock and the signatures of files are arguments. A poll is a function of what it finds
--     each time it wakes.
--   * Crypto.antt: the frames of src/crypto.rs over a socket, which is the bytes to be read and those
--     written. Crypto/Handshake.antt: the exchange of keys, one function per message. The ciphers
--     are parameters with the laws that their crates document.
--   * Disk.antt: what the daemon calls on the disk, as an interface: steps that may fail on a state.
--     Daemon.antt: RootPolicy, the marks of operations and the temporary paths of src/daemon.rs;
--     Daemon/Requests.antt and Daemon/Dispatch.antt: handle_request, for every request. The scans of
--     whole trees are arguments of the dispatch.
--     Daemon/Connection.antt: the loop over the requests of one client with the streamed writes and
--     ranges, over an interface of the channel, with a bound on the rounds;
--     Daemon/Connection/Announce.antt: what a streamed write announces; Daemon/Connection/Refusal.antt:
--     requests for a root that is not served.
--   * Sync.antt: the commands push, pull and sync of src/sync.rs, over interfaces of the storage client
--     (src/storage.rs) and of the workspace (src/local.rs). The connection is a step of each command.
--     Sync/Keeps.antt: steps that keep a view of the state.
--   * Storage.antt: src/storage.rs, the choice of a backend and the folder backend, as the interface that
--     the commands use.
--   * Config.antt: the addresses of remote sides in src/config.rs. Journal.antt: src/journal.rs, the
--     journal of uploads, on the interface of a disk; its TOML text and parser are arguments.
--   * Remote.antt: the loops of src/remote.rs that repeat a connection and an operation, by recursion on
--     the retries that are left. Remote/Retry.antt puts them against the daemon's marks.
--     Remote/Wire.antt: how src/protocol.rs sends a request and reads its response, over an interface of
--     the channel's frames. Remote/Client.antt: the requests of RemoteClient. Remote/Transfer.antt:
--     download_file and upload_file, on an interface of the workspace's disk; their loops have a bound
--     on the rounds, which Remote/Transfer/Download.antt shows to be enough for a download.
--   * Base.antt and its children: tests on numbers, orders, strings and maps, which stand for what
--     the language and its standard library do. Tests.antt: the unit tests of the files above, and
--     the theorems at concrete inputs.
--
-- Numbers are natural numbers; sums of u64 counters are taken not to overflow, and a saturating
-- difference is the difference that stops at zero. Loops are recursion on the list they go over, or on
-- the retries, rounds or blocks that are left. Constants of the C library are those of Linux.
--
-- Not modelled: of src/vfs.rs the start and the stop of a mount, the pools of clients, the thread that
-- flushes idle buffers and the race of several readers for one block; the adapters to the mounts
-- (src/mountfs.rs, src/nfsmount.rs), the files of the configuration and the
-- token (src/config.rs), the scan of a workspace (src/local.rs), of src/remote.rs
-- the set-up of a connection with its tunnel and run, of the daemon its threads, its
-- scans of whole trees and the commands that it runs, and the command line and
-- terminal (src/cli.rs, src/main.rs, src/ui.rs), which are input and output.
pub mod Base
pub mod Error
pub mod Paths
pub mod Snapshot
pub mod Protocol
pub mod Changes
pub mod Crypto
pub mod Disk
pub mod Config
pub mod Journal
pub mod Daemon
pub mod Sync
pub mod Storage
pub mod Remote
pub mod Vfs
pub mod Tests

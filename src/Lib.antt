-- ===== src/Lib.antt =====
-- Verification of confuse, a Windows port of the `fuser` interface: a `Filesystem` written for FUSE
-- is mounted through Dokan. Dokan names files by paths and FUSE by inodes with counted lookups, so
-- the adapter (src/dokan_impl/adapter) resolves each path by lookups, caches what it learns in a
-- `PathResolver`, and gives each counted lookup back by `forget`.
--
-- Parts and files:
--   - Common: tests on numbers, results, lists, texts, association lists, machine integers.
--   - Facade: src/fuser_facade/types.rs and the payloads of src/fuser_facade/reply/api.rs
--     (Facade/Types), the error numbers of the `libc` crate on Windows (Facade/Errno), the buffers of
--     directory replies (Facade/Buffers, Filling) and `KernelConfig` (Facade/Kernel, Settings).
--   - Resolver: src/dokan_impl/adapter/state.rs. Resolver/State has the records and what is counted;
--     Path the keys; Refs, Ops, Attrs and Invalidate the methods, under the names of the source, each
--     on `PathResolver` and with the state after it as a result. Accounts, Invariant and Stores are
--     about its invariant, Balance and Remembering about the lookups that it answers for, History about
--     sequences of calls, Hits and Answers about what it answers, Removal about what it drops, Normal
--     about its keys, and Notify about a notification.
--   - Helpers: src/dokan_impl/helpers.rs (Codes, Names, Ranges; proofs in Splitting), the volume's names
--     and flags of src/dokan_impl/helpers/operations.rs (Volume), and
--     src/dokan_impl/helpers/security.rs (Security).
--   - Adapter: src/dokan_impl/adapter. Calls is the trait `Filesystem`
--     (src/fuser_facade/filesystem/api.rs) and World the adapter's state with the state of the mounted
--     file system; Paths is path_routes.rs; Monad chains methods with early returns; Operations is
--     src/dokan_impl/helpers/operations.rs; Requests and Create are create_routes.rs; Remap and
--     Handlers are routes.rs, directory_routes.rs and handler_methods/dispatch.rs, metadata_io.rs and
--     security_locks_streams.rs. Ledger says what a file system counts, Walk, Keeps and Settled follow
--     the counts through the routes, Callbacks has the callbacks and Balanced their sequences;
--     Untouched is about file systems that keep no counts, Planning about the plan of a write, and
--     Remapped about the keys of open paths after a rename.
--   - Mount: src/dokan_impl/mount_options.rs. Words has the words, Options the validation and the
--     translation for Dokan, Parsing the parsers, Flags what Dokan is given.
--   - Session: src/fuser_facade/session.rs and src/dokan_impl/mountpoint.rs. Configured is what
--     a session makes of its configuration, Lifecycle how it is made, unmounted, joined and dropped; Threads and Ending are about them.
--   - Notifier: src/fuser_facade/notifier.rs. Wire has the bytes of numbers and names, Messages the
--     methods; Decoding, RoundTrip and Errors are about the messages.
--   - Memfs: examples/memfs, the example of a file system. Nodes, Storage, Methods, Names and Listing
--     are its tables and methods, Service the instance of the trait. Tree states what the methods
--     for names may do to a tree of names; Linked, Kept, Renaming and Invariant are about the two
--     tables, Entered about the way back from the inodes, Contents about bytes, Resuming,
--     Described and Collecting about listing in several calls, Adapted about the example
--     below the adapter's callbacks.
--   - Tests: concrete data and runs.
--
-- How the code is modelled:
--   - A path or a name is the text that `to_string_lossy` gives, a list of code points.
--     `str::to_lowercase` and the readings of the clock are the record `Env`: each `Instant::now()` is
--     a reading of its own, with any value. A time or a duration is a number of nanoseconds.
--   - The map of paths is iterated and so an association list in the order of iteration; the inode
--     table is read and written by key and so a function.
--   - A `u64` is a natural number; saturation and wrap-around are written out. An `i64` is a `ℤ`.
--   - A method that returns early is a function into a result and the state after it. An NTSTATUS is a
--     name; codes that the source maps to the same status are the same name. A handler
--     holds the lock of the file system while it runs, and no lock is poisoned.
--   - The mounted file system is a parameter: any function from a call of the trait to what the reply
--     holds and a new state. Where a theorem speaks of counted lookups, the file system is one that
--     counts as FUSE asks for (`Counts` in Adapter/Ledger): what it granted and what it was given back
--     since it was made, of which no more than a `u64` is outstanding for an inode.
--   - Dokan's functions that take an entry or a stream are parameters, on the list of what they have
--     been handed, as are its matching of names, its answers to `dokan::unmount`, its default options,
--     and `std::str::from_utf8`, the sender of notifications and the socket of a session.
--   - Loops are structural recursion on lists. The loop of `set_time_granularity` runs on fuel, for which
--     ten rounds are enough (Facade/Settings); the reader of Memfs/Collecting makes a number of calls
--     that is shown to be enough. Memory is unbounded: the example's `write` does not fail
--     for lack of it.
--
-- Not modelled: the starting of threads and the calls of Dokan in src/fuser_facade/session.rs;
-- `get_volume_information`, which copies the adapter's names; conversions of error numbers
-- (`Errno::from_i32`) and the hash of identities (`stable_u32`) with the token lookups of
-- src/fuser_facade/request.rs; the one-line setters of replies; the parts of the trait that the adapter
-- never calls; the asynchronous wrapper src/fuser_facade/experimental.rs. The rest is re-exports, calls
-- of the operating system, and code compiled for tests only.
pub mod Common
pub mod Facade
pub mod Resolver
pub mod Helpers
pub mod Adapter
pub mod Memfs
pub mod Mount
pub mod Notifier
pub mod Session
pub mod Tests

-- ===== src/Lib.antt =====
-- Traffic Cone: a store of TLS client certificates and SSH keys, a daemon that signs for the processes
-- of its user under routes from application and host to certificate, and its clients.
--
-- The parts, and where the repository has them:
-- * Store models the crate cone-store. Store/Models is crates/cone-store/src/models.rs and error.rs.
--   Store/Db has the tables of db.rs and the statements that the crate executes on them, with the
--   constraints of the schema, of which Store/Db/Sound states five as an invariant, and
--   Store/Db/Migrate has migrate, which opening a store runs. Store/Handle is store.rs: the handle,
--   locked or unlocked, over the two files on disk. Store/Crypto is crypto.rs.
--   Store/Listing, Store/Routes (resolve_route) and Store/Delete (delete_cert) are list.rs.
--   Store/Integrity is integrity.rs. Store/Import, with Import/Path, Import/Formats and Import/File,
--   is import.rs. Store/Export is export_pfx of export.rs, and Store/Backup, with Backup/Restore, its
--   backup file. Store/Handle/Lifecycle has the theorems on unlocking and locking, and Store/Keyring
--   the abstract view of the store: a function from the id of a certificate to its private key.
-- * Daemon models the crate coned. Daemon/Numbers, Daemon/Fields, Daemon/Address and Daemon/Utf8 have
--   the parsing of /proc, and Daemon/Monitor the cache of processes, of
--   crates/coned/src/process_monitor.rs.
--   Daemon/Routing is routing.rs: it resolves a PID through the monitor, checks its hash, and asks the
--   store for a route. Daemon/Ipc is ipc.rs: frames, requests, and the loop over connections;
--   Daemon/Sockets has its socket, which ssh_agent.rs binds in the same way.
--   Daemon/Wire and Daemon/Ssh are ssh_agent.rs: the wire format, the messages and the loop;
--   Ssh/Identities and Ssh/Signatures read its answers as a client does.
--   Daemon/Hardening is hardening.rs and Daemon/Start main.rs, up to the threads of the servers, which
--   Daemon/Servers has side by side: a run interleaves connections of the one and messages of the other.
-- * P11 models crates/cone-p11/src/pkcs11_impl.rs: the state of the PKCS#11 module, the search for
--   objects and the buffer of C_Sign, where the daemon's answers are arguments. P11/Functions has the
--   function list, P11/Token the token info, and P11/Exports every function of the list with the
--   pointers that its caller may leave out. P11/Client is
--   crates/cone-p11/src/ipc.rs, the connection that gives those answers, and the calls that use it.
-- * Cli models the crate cone-cli: Cli/Client is crates/cone-cli/src/client.rs, Cli/Commands the
--   commands of crates/cone-cli/src/main.rs on an open store, in the monad of Cli/Cmd, Cli/Command
--   the commands that `main` is given, and Cli/Main its dispatch and the opening of the store.
--   Cli/Tool has what a run has around it, and Cli/Output the printed lines as values.
-- * Common has the shared types: texts and byte strings are lists of bytes, Rust's `Result` and its
--   `?`, integers, stable sorting for ORDER BY, and the lemmas on them.
-- Store/Samples, Daemon/Samples and the modules Runs have test data and the theorems applied to it.
--
-- State is passed explicitly. A read of the store is a function into `Result`; an operation that
-- writes is an `Exec`, which returns the store beside its result, so that what was written before an
-- error stays written. The rows of an open connection are part of the disk. Random bytes, ids and the
-- time are arguments. A moment of /proc and of the files is the record `Kernel`.
--
-- The errors of files that unlocking a store meets are arguments (`Opening`). `connect` of std
-- (Common/Host) fails on a path with a NUL byte, which both clients of coned give it: the rest of
-- their code is modelled as it would run on a connection.
--
-- Parameters, since they are not in the repository: argon2, AES-GCM, SHA-256 and hex (`Crates`, with
-- what they document in `CratesLaws`), the certificate and key parsers (`Parsers`), the signature
-- crates and serde_json (`IpcCrates`, `SshCrates`, `ClientCrates`, `P11Crates`), age (`BackupCrates`),
-- p12-keystore (`PfxCrate`), the environment with its prompts and system calls (`Host`, `Tool`), and
-- the operator LIKE of SQLite. A SELECT without ORDER BY reads the rows in the order of
-- insertion, and a JOIN without it in that of its left table: SQLite promises neither.
--
-- Loops are structural, but for the SSH conversation, which runs on fuel: each message takes bytes off
-- the stream, so that fuel above the length of the stream is enough. Lengths of frames are written
-- modulo 2 ^ 32, as the source casts them, and bytes are natural numbers; `from_be` is that of a
-- little-endian machine.
--
-- Not modelled: the layout of the token info in memory, the parsing of the command line, SQLite, the
-- interleaving of the servers within one connection or message, writes to sockets that fail, log
-- lines, the texts of errors, poisoned mutexes, the zeroing of memory, and the stubs for other
-- platforms than Linux.
pub mod Common
pub mod Store
pub mod Cli
pub mod Daemon
pub mod P11

-- ===== src/Lib.antt =====
-- UBOD keeps the documents of an institution in a vault: an encrypted database, a tree of sealed
-- files, and an audit chain that every service writes to. This library models the core of it.
--
-- The parts, and how the program joins them:
-- - crates/vault-core: the records that all crates share, the matrix of the roles, the calendar.
-- - crates/vault-store: the database `VaultDb`, a state in memory that `flush` saves, with the
--   hash-linked audit chain.
-- - crates/vault-fs: the paths of the vault and the sealing of files.
-- - crates/vault-roles: `RoleService`, the operations of the users, each of which tests the role,
--   moves or copies files through vault-fs, changes the state and appends to the audit chain.
-- - crates/vault-audit: the sweep that hashes every file again and marks what has changed.
-- - crates/vault-admin: `AdminService`, the administrator's PINs and sessions, the destruction of
--   documents under two PINs, the queue of submissions and the sealing of what is admitted.
-- - crates/vault-index: the rules that classify files, the search, the plain text of documents.
-- - crates/vault-sync: the channel over which devices pair, ask for the manifest and upload.
-- - crates/vault-webui: the panel of the administrator, routes that call `AdminService`.
-- - bins/vaultd: the daemon, which takes the uploads of the channel into the queue.
-- - crates/vault-crypto: the encryption of the database and the encoding of time stamps.
--
-- Where each part stands:
-- - Base: the lists, texts, integers and fallible methods that the modules share. `Exec S E A` is a
--   method that changes a state `S` and may fail, and what was written before an error stays written.
--   Base.Exec.Keeps has the rules for invariants of such methods. Base.Foreign is the interface of
--   the packages that the program calls: the digests, argon2 and the tables of Unicode.
-- - Core: `Category`, `Role`, the records, `civil_from_epoch` and its inverse, `new_id`.
-- - Store: `DbState` and the methods of `VaultDb`, by the part of the state they work on. Each is a
--   function of the state under the name of the method.
-- - Fs: `World` is what a service acts on: the database, the files by path, the clock, the random
--   numbers, and a schedule of faults, one entry for each call of the system. Fs.Files has the calls
--   and `seal_file`, `unseal_file`, `install_sealed`, `install_staged`, `secure_wipe`; Fs.Paths the
--   paths. Directories are not kept as such: making or removing one is a call that may fail, and
--   `is_taken`, the test that the place of a new file is free, sees a directory by the files below it
--   or by a name `.` or `..`. An empty directory is not seen, and `exists` is for the path of a document. The modes of
--   files are recorded, and only the immutable attribute forbids a change, as for the owner of the
--   vault. The branches for Windows and Landlock are left out.
-- - Roles: the methods of `RoleService` under their names; Roles.Service has them as requests, and
--   histories of requests.
-- - Audit: `sweep`.
-- - Admin: `AdminService` over a `World`, with its lock and its sessions; the clock counts seconds, and
--   the tokens of sessions and the random bytes of a wipe are arguments. Admin.Pins has the PINs and
--   sessions, Admin.Counted and Admin.Attempts wrong PINs in a row, Admin.Destruction the destruction, Admin.Admission and Admin.Devices `reject` and
--   `pair_device`, Admin.Sealing is `seal_document`, Admin.Admit `admit`, Admin.Service the requests and
--   their histories. The authority for time stamps and the programs that take the text out of a file
--   are the interface `Outside`. The codes for pairing are in
--   the routes of the panel, for a service that is connected to the channel.
-- - Index: Index.Rules classifies, Index.Query is the search with its grammar, Index.Text the way from
--   XML to plain text and the limit of what is indexed.
-- - Sync: `SyncState` and its methods; Sync.Http reads a request from the pieces of a stream; Sync.Server
--   answers requests as `handle_conn` does. An answer is a status and a value where the program writes JSON, and the error texts of the system
--   are left out. `Callbacks` has what the daemon registers. Sync.Server.Steps has the channel
--   as steps, and Sync.Server.Spent and Sync.Server.Transitions a relation over codes and devices that says what a
--   request may do.
-- - Daemon: `ingest_to_staging` and the callbacks of `start_sync`. `Packages` is what reads JSON and
--   issues certificates.
-- - Webui: the sessions of the panel; Webui.Routes is `handle_conn` and `route` with its routes, each a function of its own,
--   Webui.Decode `percent_decode`. Answers are values, as in Sync.
-- - Crypto: Crypto.Blob is `DbCrypto`, over any cipher; Crypto.Der the helpers of derutil.rs.
-- - Examples: a small vault, the runs on it, and some tests of the repository.
--
-- Bounds and fuel: numbers are naturals without a bound, but for the version number of a document,
-- the length of a ciphertext and the count of failed PINs, which wrap at 2 ^ 32, and the seconds of a
-- lock, which wrap at 2 ^ 64. The sum of a lock and the clock has no bound. `emit`, `chunks` and `decrypt_records` take
-- fuel: the number itself, the length of the text and the length of the blob, and each round takes
-- away at least that much.
--
-- Not modelled: vault-crash, the parser of time stamps, the lock file of the database, the client of
-- the channel, the reading of archives, RTF and PDF. Left out: the screens, TLS, certificates,
-- mDNS, command lines, and serialisation by serde.
pub mod Base
pub mod Core
pub mod Store
pub mod Fs
pub mod Roles
pub mod Audit
pub mod Crypto
pub mod Sync
pub mod Admin
pub mod Index
pub mod Examples
pub mod Daemon
pub mod Webui

-- ===== src/Lib.antt =====
-- A verification library of xx-drive, a private cloud drive: a server that keeps each user's files
-- as plain files on disk, with trash, versions and shares, and a command-line client that syncs.
--
-- Parts and files (paths from the repository's root):
-- - Prelude: shared names, Boolean tests, lists, tables of rows, Go strings as lists of bytes, and
--   results with the sentinel errors of the Go packages.
-- - Filepath: package path/filepath on Unix, as far as the program uses it. Filepath/Segments and
--   Filepath/Canonical hold the theory of segments and of canonical rooted paths,
--   Filepath/Children that of a directory's entries.
-- - Disk: what package os does to a list of absolute paths with directories and files: Lstat,
--   WriteFile, RemoveAll, MkdirAll, Rename. Disk/Strip and Disk/Rename hold the theory of trees,
--   Disk/Nodes what the calls leave at other paths.
-- - Drive/Paths: the path and name functions of internal/fsdrv/fsdrv.go (ValidateRel, NameOf,
--   ParentOf, JoinPath, ValidName, isStagingEntry, sanitizeTag).
-- - Drive/Resolve: ResolveUserPath of internal/fsdrv/fsdrv.go, over what os.Lstat reports.
-- - Drive/Trash: DeleteWithVersions and Restore of the same file, and in Drive/Trash/Purge
--   ReadTrashMeta, PurgeTrashItem, EmptyTrash and PurgeOldTrash. Which calls fail is a function
--   argument, so every combination of faults is covered.
-- - Drive/Moves: Rename and Move of the same file.
-- - Drive/Versions: the stored contents of versions in the same file (snapshotVersion, SnapshotCurrent,
--   OpenVersion, PruneVersionBlob, DeleteVersionDir, RelocateVersionBlobs, RelocateVersionDir).
-- - Drive/Entries: EtagOf, Stat, List, OpenFile and HashFile of the same file.
-- - Drive/Upload: Upload of the same file, with the staging of the body, the version of what it
--   replaces and the conflict copies. Drive/Layout holds that the areas of the data root are apart.
-- - Drive/Folders: Mkdir, RemoveUser, Copy, copyTree and copyFile of the same file.
-- - Drive/Walk: Search, WalkTree, ListTrash and RestoreVersion of the same file.
-- - Store: internal/store/store.go. Store/Rows has the tables, as lists of rows in the order of their
--   ids, and the other modules the operations on them: Store/Users, Store/Sessions, Store/Shares,
--   Store/Stars, Store/Events, Store/Versions, Store/Etags. Store/Sessions/Calls has the sessions
--   table as a set, and what each call may do to it. Each takes the time, and what is drawn at
--   random, as an argument, and returns the new database. Store/Like is EscapeLike and the
--   condition of the queries for a subtree.
-- - Fabric: the token validation of internal/fabric/token.go (Validate, UserIDFor, LooksLikeToken).
-- - Api/Auth: authenticate, authenticateFabric, mutating and adminOnly of internal/api/server.go.
--   Identity is over the store and the token validation.
-- - Api/Limiter: loginAllowed and loginFailed of internal/api/server.go.
-- - Api/ShareTarget: shareTarget and hasDotDotSegment of internal/api/shares.go.
-- - Api/Grants: the password grants of internal/api/shares.go (hasGrant, issueGrant,
--   sweepGrantsLocked, capGrantsLocked).
-- - Api/ShareIndex: resolveShare and the index of short links of internal/api/shares.go.
-- - Api/History, Api/Handlers, Api/FileHandlers: the handlers of internal/api/handlers.go that change
--   files, the trash and versions, over a state of the database and the disk, with the functions that
--   make the history of versions follow a file (relocateVersionHistory, purgeVersionHistory,
--   purgeSpecificVersions, moveSpecificVersions). Errors are answered by their status.
-- - Api/Accounts: the handlers of logins, sessions, passwords and users of the same file.
-- - Api/ShareHandlers: the handlers of shares of internal/api/shares.go, for owners and visitors.
-- - Janitor: runJanitorOnce and purgeVersionsOfPurgedTrash of cmd/xxdrive-server/main.go.
-- - Client: the sync engine, cmd/xxdrive-cli/sync.go, with walkRemote, statRemote, uploadFile and
--   parentDir of cmd/xxdrive-cli/main.go. Client/Dict is Go's maps, Client/Sync the data, the names
--   and the listings, Client/Transfers the transfers and conflicts, Client/Pass one pass (syncOnce).
--   The client's view of the server is a record of four calls, which may do anything. Client/Server
--   adds to a server the list of the contents that it has answered for, in uploads that it accepted
--   and in downloads; each local call may fail at each path. Client/Decision says which branch is taken,
--   Client/Others, Client/Baseline and Client/Held what a path's reconciliation leaves of the
--   others, Client/Kept and Client/Lossless what it keeps.
-- - Tests: runs and instances.
--
-- Texts are lists of bytes. strings.ToLower is modelled on ASCII letters, which is all that the
-- searches for percent-encoded characters can see; the order of a listing and the matches of a search
-- are those of the program for names with ASCII letters. Numbers are natural numbers: the program's sizes
-- and times are not negative, and a time read from a trash item's metadata is taken as such too.
--
-- Code outside the repository is an argument. SHA-256 of a token, the HMAC, base64 and JSON decoders
-- and net.SplitHostPort are any functions; where a theorem needs JSON to read back what it wrote, it
-- says for which texts. SQL's LIKE is a function with the documented behaviour on texts in UTF-8
-- without NUL as hypotheses, and Tests/Versions has one that behaves so. Ids that are drawn at random are arguments;
-- where a theorem needs one to be unused, it says so.
--
-- The search of Upload for a free name runs on 4098 rounds, more than the longest path that
-- ValidateRel admits, and each round lengthens the name. The walks of Search, WalkTree and Copy run on
-- fuel for the depth; for the first two, more than the length of the longest path on the disk is
-- enough. The loop of trashLocal has the source's 1000 rounds. The fuel of walkRemote bounds the
-- directories that it lists, and the theorems are about passes where it ends, since a server may show
-- directories without end. The loop of Restore runs on fuel, one more than the entries of the disk, and
-- is left out of the theorems. The loop that evicts grants runs as often as there are grants too many.
-- All other recursion is structural.
--
-- Not modelled: the handlers that only read and the pages, which are JSON, HTML and streams around
-- operations that are modelled; the start of the server, the watch loop and the other commands of
-- the client; I/O errors of the database; a failed removal of a trash item's sidecar file; password hashing, which is third-party code; locks, as
-- each operation runs under one; permissions and file modes; the Android app, the web pages and
-- the deployment scripts, which are not Go code or have no logic.
pub mod Prelude
pub mod Filepath
pub mod Disk
pub mod Drive
pub mod Client
pub mod Store
pub mod Fabric
pub mod Api
pub mod Janitor
mod Tests

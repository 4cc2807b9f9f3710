-- ===== src/Lib.antt =====
-- Verification library of Benchhand, a daemon that gives agents workspaces, files and journalled
-- operations over a local RPC socket.
--
-- Parts and files. Paths are from the repository's root.
--
-- - Contracts: packages/contracts/src/contracts.ts and ids.ts. Value holds JavaScript values,
--   unfolded to trees, and `isJsonValue` on them, which the other files use; Objects has
--   `isJsonValue` with its `WeakSet`, on objects in memory, and Unfolded joins the two. Schema holds
--   the TypeBox schemas as data and the parse functions; what TypeBox's `Value.Check` answers is
--   the parameter `SchemaCheck` of Check, with what its documentation says of the schemas that an
--   envelope is made of.
-- - Storage: packages/storage/src/index.ts. A table is the list of its rows; `update_where` and
--   `count_where` are an UPDATE and its number of changes, and `transaction` rolls back on a throw.
--   Migrations holds `applyMigrations`; running and hashing SQL are parameters.
-- - Operations: packages/operations/src/index.ts. Record holds its types and the reading of a row;
--   Journal the methods of `OperationJournal` (`prepare`, `markRunning`, `reconcileInterrupted`,
--   `get`, `execute`, `#markCommitted`, `#markFailed`, `#read`) as functions of the rows. `execute`
--   is cut at its effect into `begin` and `settle`, since other calls run while the effect does:
--   Traces puts any number of these and of daemon restarts in any order. `JSON.stringify` and
--   `JSON.parse` are the parameter `JsonText`, with the round trip on JSON values. The daemon calls
--   `reconcileInterrupted` when it starts.
-- - Filesystem: packages/filesystem/src/index.ts. Path holds `normalizeRelativePath`,
--   `joinPortable`, `boundedInteger` and `validateSearchString`; Patch `findAllOccurrences`,
--   `planExactPatch` and `applyPlannedPatch`; Listing the entries, the sorting and the pages of
--   `list`; Search the budget of `search`, `appendSearchMatch`. Write holds `#writeAtomic` with
--   `inspectWriteTarget` and the preconditions: the calls that fail, and what other processes do to
--   the target between the calls, the `lstat` and the `open` of one inspection included, are the
--   parameter `Circumstances`; `link` and `rename` are
--   fields of `System`, with what POSIX says of them as hypotheses. PatchFile is the body of
--   `patch`, from the first inspection to the mapping of the write's errors, with
--   `normalizePatchEdits`; UTF-8 is its parameter.
-- - Instructions: packages/instructions/src/index.ts. Scope holds `normalizeRelativePath` and
--   `buildScopeChain`; Documents the loop of `resolve` over what the providers answer, with
--   `normalizeContribution`; Skills the choice of `listSkills` among skills of one name, and
--   `readSkill` behind the discovery.
-- - Workspace: packages/workspace/src/git-worktree.ts and index.ts. Porcelain holds
--   `parseWorktreePorcelain`; Git the other calls of Git; Directories the functions of paths
--   (`resolveWorkspaceDirectory`, `findRepoRoot`, `canonicalizePotentialPath`); Registry the three
--   tables and the journal of worktrees; Checkouts `open` in checkout mode and `get`; Worktrees
--   the registration and the reconciliation of a worktree, Known and Opening `#openWorktree` step
--   by step and `open`. Node's path and file functions are the parameter `Disk`; what Git answers
--   and what other calls do to the tables during an `await` are parameters of each call.
-- - LocalRpc: packages/local-rpc/src/index.ts. The root holds `RpcCallError` and the guards of
--   `call`; Transport `requestOverIpc` as a machine: its state is the local variables, its events
--   the callbacks of the timer, the caller's signal, the request and the response, in any order.
--   Failures describes the errors of a failed request as a relation, Resolved the bytes behind a
--   result.
-- - Daemon: packages/daemon/src/index.ts. Params and Edits hold the readers of the parameters,
--   Dispatch `dispatchRpc` with the mapping of errors, Http `handleHttpRequest`, Body
--   `readRequestBody`, Startup `startDaemon`, `prepareIpcEndpoint` and `close`. The other
--   components are the interface `Components`, whose operations change a state of any type.
--   RoundTrip joins the client and the handler.
-- - Paths and CodePoints hold what the filesystem and packages/instructions/src/index.ts share:
--   the steps of both path normalisers, and `compareCodePoints`.
-- - Prelude: Boolean tests, lists over native numbers, thrown errors as values, and texts as lists
--   of UTF-16 code units.
--
-- Bounds and fuel. The loop of `findAllOccurrences` has one round for each position of the source
-- and one more; each round moves the search on, so these are enough. The requests that follow the
-- cursors of a listing are bounded by the number of its entries. The loops
-- that climb to the ancestors of an absolute path have one round for each unit of the path and one
-- more: its parent is shorter, or the same at a root. `isJsonValue` has one level for each object in
-- memory and one more: it enters an object only while it is not inside it. Waiting for a worktree in flight takes 40 attempts and a last one, as in the
-- source. No number in the modelled code wraps around: they are JavaScript numbers that
-- `boundedInteger` keeps below 2^53, or row versions and positions.
--
-- Not modelled: the operating system's file calls, SQLite and its settings, Git, sockets and
-- HTTP, TypeBox, hashing and JSON texts, which the code calls and does not define; error messages
-- of the filesystem, which are made for people from the parts that are modelled; timestamps, which
-- no code reads; packages/mcp-edge, the queue of writes and the directory walks of
-- packages/filesystem, and the providers and the skill metadata of packages/instructions.
pub mod Prelude
pub mod Paths
pub mod CodePoints
pub mod Contracts
pub mod Daemon
pub mod Storage
pub mod Operations
pub mod Filesystem
pub mod Workspace
pub mod Instructions
pub mod LocalRpc

-- ===== src/Lib.antt =====
-- Quetzal, a panel for game servers on Kubernetes: the rules that its database transactions keep.
--
-- The API server (cmd/apiserver, internal/api), the controller (cmd/controller) and the scheduler
-- (internal/scheduler) share one database and nothing else. What one may do while another works on
-- the same server is decided in the transactions of internal/store, so those are modelled: each is a
-- function from the tables before it to the tables after it, or to the error that rolls it back.
--
-- - Prelude: names that are shared, the rows of a table (`WHERE`, `UPDATE`, `DELETE`, `COUNT`), and
--   results with `do` for the chains of checks.
-- - Models: the rows, from internal/models: server.go and transfer.go (Models/Server), backup.go,
--   schedule.go, user.go with access.go (Models/User), and invitations, keys and sessions
--   (Models/Credentials).
-- - Store: the tables of servers and operations (Store/Db), power and hibernation (Store/Power:
--   StartServer, HibernateIfUnchanged, Wake, RequestRestart and the others of store.go), the
--   operations on a server's data (Store/Operations: CreateBackup, ClaimBackup, CompleteBackup,
--   pruneBackups and the others) and the transfer to another cluster (Store/Transfer: transfer.go).
--   Store/Bookkeeping has the writes to operations that nothing guards (UpdateBackup and others).
--   Store/Interlock holds the invariant between power, operations and transfers: Writes says what
--   each statement needs to keep it, Power, Operations and Transfer that the transactions do, Steps
--   that every sequence of them does, and Running what it means for a pod.
--   Store/Servers creates servers and writes their columns (CreateServerChecked, ReinstallServer and
--   others), Store/Removal deletes servers and accounts (DeleteServer, DeleteUser, handleDeleteServer,
--   cmdRm of cmd/qctl/main.go), and Store/Teardown says what they leave, also where
--   the database refuses a write whose error is ignored. Store/Newest and Store/Retention are about
--   pruneBackups.
-- - Quota: the quotas of an account (creationQuota, resourceQuota and withinResourceQuota of
--   internal/api/handlers.go) in the creation and the resizing of a server, with the record Quantities
--   for Kubernetes' resource.Quantity. Count is about the number of servers, Overflow about the sums.
-- - Queue: how the controller takes up the operations that wait (processPending of
--   internal/backup/manager.go), with the record Outside for what clusters, files and databases answer.
--   Serial is about operations of one server. Queue/Running ends the operations that run
--   (processRunning, resumeSubmission and jobOutcome of manager.go), with the record Evidence for what
--   is seen of Jobs, pods and logs; Evident is about that evidence. Queue/Deleting deletes snapshots
--   (processDeleting, cleanupForgotten and processCleanup); Forgets is about it.
-- - Accounts: passwords, sessions, reset links and confirmations of addresses
--   (internal/store/credentials.go, email.go, and CreateSession, UpdateUserPassword and others of
--   store.go). Writes says what each statement leaves, Stale is about checks of an old password,
--   Revoked about what ends with a password.
-- - Notify: a pass over the outbox of events (drain, dispatch and deliverWithRetry of
--   internal/notify/notify.go), with the record Outside for the sinks, the pauses and the context.
--   Attempts is about one delivery, Outcomes about one event, Cursor about a pass.
-- - Config: flat files of keys and values (applyLineKV and its helpers, internal/configfile/configfile.go)
--   on lists of code points. Trim, Lines and Keys are about blanks, lines and keys, Render, Twice and
--   Origin about the rendered file.
-- - Moves: the driver of transfers (Process of internal/transfer/transfer.go), over the transactions
--   of Store/Transfer; the record Outside holds what the clusters answer. Refines is about the tables,
--   Deletion and Sources about the namespaces, with Store/Interlock/Restored for what precedes a commit.
-- - Ports: the pool of node ports (AllocateNodePort, SetAsideNodePort, RenameNodePort and the
--   releases of store.go). Range is about the scan, Pool about the invariant, Laws and Outside about
--   what the holders of ports see.
-- - Schedules: the table of schedules (UpdateSchedule, StartScheduleRun, FinishScheduleRun and the
--   others of store.go). Stale and Claims are about writers that hold an old generation.
-- - Scheduler: a tick (Tick of internal/scheduler/scheduler.go), and in Chain a chain's run (runChain,
--   runTask, awaitBackup). What a chain meets is a list of turns, one for each task, and the rounds of
--   a wait are a function. Launch is about ticks; Order, Finish and Await about chains.
-- - Rate: attempts in fixed windows: the shared counters (internal/store/ratecounter.go) and the
--   limiter in memory (internal/ratelimit, in Rate/Limiter). Window is about one window, Shared
--   about the two side by side.
-- - Access: who may do what on a server (internal/api/authz.go).
-- - Totp: second factors (internal/totp/totp.go, internal/store/totp.go and ConsumeTOTPStep of
--   store.go). HMAC-SHA1 and the printing of six digits are arguments; Once and Recovery are about
--   what is used up, Window about the clock, Enrol about a new enrolment.
-- - Hibernate: the idle check (Tick of internal/hibernate/hibernate.go). The probe of connections and
--   strings.EqualFold are arguments. Overflow is about an idle timeout that int64 cannot hold.
-- - Minecraft: the first packets that the activator reads (cmd/activator/minecraft.go). VarInt and
--   RoundTrip are about what is written and read back, Replay about the bytes that are passed on.
--   utf8.Valid is an argument.
--
-- Conventions. A table is the list of its rows, and a unique key is looked up by its first row. Time
-- is a number, in the unit of the code. A transaction runs alone: the code locks the server's row,
-- or the whole file where the database is SQLite. The clock's reading, a primary key that the
-- database draws, the number that randRange draws and the suffixes of slugs are arguments. A uint64
-- wraps at 2^64 as written, and so do the sums of a quota and the
-- window of the idle check in int64; other counters and durations are natural numbers, such as the
-- doubled wait between deliveries. Where gorm stamps updated_at on a row of an account, Accounts does
-- so too, and Totp, whose writes touch single columns, leaves the stamp out. The scan for a free port has as much fuel as the
-- range has ports, as the loop of the source has rounds, and a VarInt has five, as
-- 32 bits fit in five bytes of seven.
--
-- Not modelled: failures of the database itself, reads that only list rows, encryption, the
-- Kubernetes API and the programs that call it (internal/reconciler, and the rest of internal/backup, which
-- builds Jobs and reads logs), the HTTP
-- handlers but for the quotas and the deletion of a server, the SFTP server, the formats of
-- configuration files that libraries read or that have sections, the web interface.
pub mod Prelude
pub mod Models
pub mod Store
pub mod Ports
pub mod Schedules
pub mod Rate
pub mod Access
pub mod Totp
pub mod Hibernate
pub mod Minecraft
pub mod Moves
pub mod Scheduler
pub mod Quota
pub mod Queue
pub mod Accounts
pub mod Config
pub mod Notify

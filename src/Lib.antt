-- ===== src/Lib.antt =====
-- DevIt lets language models change a code base through an approval engine. This development models
-- the part of it that decides and writes: the approval levels, the policy engine, the parser of
-- unified diffs and the patcher that applies them to files, the hunks of structured edits, the signed
-- journal, the tasks of the local backend, the daemon that hands tasks to workers, and the cache of snapshots.
--
-- - Approval (crates/common/src/lib.rs): ApprovalLevel and its methods. Approval/Order shows how the
--   levels are ordered.
-- - Policy (crates/cli/src/core/policy.rs): Types has the structs and enums, Checks the tests on one
--   file change, Levels one function per level (evaluate_untrusted to evaluate_privileged), Engine
--   the engine with evaluate_changes and the setters, Sandbox evaluate_sandbox. Spec says what each
--   level permits, with no order of tests; Decisions compares the code with it.
-- - Patch (crates/cli/src/core/patch_parser.rs): Types has the structs, Hunk parse_hunk and
--   parse_range, File parse_file_patch, Diff from_diff and parse_plain_unified. Render
--   writes hunks out, Headers and Sections follow the header loop.
-- - Patcher (crates/cli/src/core/atomic_patcher.rs): Hunk has apply_hunk_to_lines, Content
--   build_new_content, Files the methods of AtomicPatcher that touch files. A patch is parsed by
--   Patch, each path is validated, and each file is then deleted, created or modified in turn.
-- - Edits (crates/context-engine/src/diff/mod.rs and types.rs): Types has the edits of a language
--   model and the hunks they are read into, Apply fill_original_content and apply_hunks. They stand by
--   themselves: the studio shows the hunks, and the user accepts or rejects each.
-- - Journal (devitd/src/journal.rs): the signed journal of the daemon, in Journal itself, with what its
--   verification accepts in Chain. The file is a list of lines as serde_json reads them; a write that
--   fails leaves no part of its line behind.
-- - Tasks (crates/orchestration/src/local.rs, types.rs): the tasks that the local backend keeps, with
--   its calls as steps on the two maps. Life follows them; Recorded has what
--   notify records.
-- - Daemon (devitd/src/main.rs, policy.rs): the orchestration daemon. Daemon has its messages, leases and
--   State; Policy evaluates policy.rs, Details reads payloads, Signing is verify_hmac_detailed and
--   sign_msg, Store the methods of State, Screenshot ScreenshotControl, Cleanup and Timeout
--   cleanup_expired, Outgoing the messages it makes. The handlers are Clients (handle_register,
--   handle_heartbeat, handle_poll, handle_status_request), Delegate and Grant (handle_delegate,
--   handle_approval_request, proceed_with_delegation), Reports, Acks and Notify (handle_notify),
--   Approvals (handle_approval_decision), Handle (handle_screenshot, handle_message), Workers the end of a
--   worker's run, Hooks what run_notify_hook stores, Start State::new. A handler takes an Env (clocks, new
--   ids) and the state, and gives an answer, the effects that it starts and the new state; a task goes
--   from handle_delegate to its worker, and back through handle_notify or cleanup_expired.
-- - Snapshots (crates/cli/src/core/snapshot.rs): the cache of snapshot signatures. Recency has what it
--   promises, a list with the least recently used key first; Simulation compares the two.
-- - PathSecurity (crates/cli/src/core/path_security.rs): the checks of paths and links against the
--   root, with the calls of std::fs as an interface; Below has what they show.
-- - Errors (crates/cli/src/core/errors.rs): the errors that the patch code raises.
-- - Text and Paths stand for what the code uses of std::str and std::path, on Unix: a text is a list
--   of code points, a path the text it is written as, and its components are computed from that text.
-- - Prelude: names of the library passed on, Boolean tests and lists over the native numbers.
--
-- A function that returns Result or DevItResult returns a value of Policy.Types.Result or of
-- Errors.Outcome. Outcome has a constructor for a panic too, which slices of a range in a hunk header
-- can cause, and one for a loop that runs out of fuel, which is not reached: the fuel of a loop over
-- lines is the number of lines that are left, and each round takes at least one.
--
-- The calls of std::fs are an interface, Patcher.Files.FileSystem: any state with operations that
-- succeed or fail. canonicalize, to_lowercase and the metadata of a request are parameters.
--
-- Sums of lines in the policy wrap at 2^64, as a release build does. Line numbers and the counters of
-- PatchStats do not wrap: they are bounded by the number of lines in memory. Messages are data types
-- with one constructor for each format string, and log output is left out.
--
-- The daemon's libraries are the interface Daemon.Platform (JSON values, HMAC, base64, printing) and
-- Daemon.Handle.Outside (the capture of a screen, the serialisation of a status). Its maps are association
-- lists, so the order in which a map is run through is that of the list; clocks count nanoseconds and do
-- not overflow. A handler is one step, though between two of its sections that hold the lock another
-- task can run. The entries that the daemon asks of its journal are kept as a list of requests.
--
-- Not modelled: the daemon's sockets, framing, start-up and shutdown, the launch of workers and hooks, and
-- its Windows build; the making of snapshots, git, the tests and the HTTP, socket and user interfaces of the other
-- crates, which perform I/O around these decisions; what a crash leaves behind between two calls of
-- std::fs; changes of the files by others while a patch is applied.
pub mod Prelude
pub mod Text
pub mod Paths
pub mod Approval
pub mod Errors
pub mod Patch
pub mod Policy
pub mod Patcher
pub mod Edits
pub mod Journal
pub mod Tasks
pub mod Daemon
pub mod Snapshots
pub mod PathSecurity

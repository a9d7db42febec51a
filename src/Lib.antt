-- ===== src/Lib.antt =====
-- A model of minion, a library that runs untrusted programs in sandboxes on Linux, and of its
-- command line. A client builds a command (src/command.rs) with options (src/lib.rs); the Linux
-- backend (src/linux.rs) creates a sandbox (src/linux/sandbox.rs), which has a group for its
-- resource limits (src/linux/limits.rs and its drivers), a watchdog task
-- (src/linux/sandbox/watchdog.rs) and a zygote, a process in namespaces of its own
-- (src/linux/zygote.rs) that starts the jobs and answers over a packet socket (src/linux/ipc.rs).
--
-- Base has what all modules share. Os is the operating system: code that makes system calls is a
-- function of an environment, which answers each call by the calls made before it, and of the
-- history of calls; its outcome is a value, an error, a panic, the end of the process, or another
-- program that runs from then on. Nothing is assumed of an environment but what a theorem names, as
-- `Delivers` of Ipc/Packets does for a packet socket, whose descriptors arrive under new numbers. A
-- panic ends the program; only where the creation of a sandbox panics, the drop of it is written out.
--
-- Uids is src/linux/uid_alloc.rs, the identifiers of sandboxes: the set is a list, and Sets
--   describes the allocator by the set alone.
-- Options is src/lib.rs, with the paths of the standard library that it uses; paths and strings are
--   lists of bytes.
-- Command is src/command.rs, Report is src/check.rs, Host is src/linux/check.rs,
-- Errors is src/linux/error.rs with the errors of its parts.
-- Settings and Child are src/linux.rs: settings, standard streams, the start of a job.
-- Util is src/linux/util.rs: raw calls, the conversion of errors and the logger.
-- Fds is src/linux/fd.rs and src/linux/pipe.rs; an owned descriptor is its number, and its drop is
--   written where Rust drops it.
-- Ext is src/linux/ext.rs, file systems in memory.
-- Ipc is src/linux/ipc.rs: `Socket::send`, `recv`, `send_fds` and `recv_fds`. How serde_json writes
--   and reads a type, and the hash of the type, are a `Codec`, an argument.
-- Jail is src/linux/jail_common.rs, the messages between a sandbox and its zygote.
-- Limits is src/linux/limits.rs and the drivers below src/linux/limits: Cgroup, V1, V2, Prlimit, and
--   Driver, which chooses one (Configs says which configurations are tried, Attempts how a failed
--   choice is reported).
-- Zygote is src/linux/zygote.rs and the files below src/linux/zygote: Exec is `spawn_job` and
--   `do_exec` (with src/linux/seccomp.rs), Setup and Panics are setup.rs, Loop and Serve are
--   main_loop.rs, Start is `start_zygote`, Diagnostics is `print_diagnostics`, whose course is shown
--   in Ancestors and Listing. Joins, Job, Table and Inherited follow the process of a job up to its program, where
--   the descriptor table of the kernel is a parameter; Confined follows a new zygote up to its loop.
-- Sandbox is src/linux/sandbox.rs: its state, its drop, Create for `LinuxSandbox::create`, Jobs for
--   `spawn_job` and exit codes (with src/linux/wait.rs), Watchdog for its task. Answers follows an
--   exit code from the zygote (Zygote/Loop) to the future of the caller.
-- Erased is src/erased.rs over the traits of src/lib.rs: a trait is a record of operations over a
--   world, which holds the objects; a handle is the address of an object.
-- Backend is `LinuxBackend` of src/linux.rs with the sandboxes, children and futures that it made, as
--   an implementation of those traits; Requests is what a client can call.
-- Cli is minion-cli/src/main.rs; Main is its `main`, from the parsed options on, over any backend of
--   src/erased.rs.
-- Codegen is minion-codegen, the generator of the filter programs.
-- Harness is minion-tests/src/main.rs and master.rs beside it; Worker is worker.rs beside
--   it, Cases tests.rs and tests/simple.rs, Fill the memory that one of the tests fills.
-- Ffi is minion-ffi/src/lib.rs, the bindings for C: Memory reads what the caller laid out in memory,
--   Objects holds the boxes that the library gave out and Process starts and awaits processes;
--   Outside follows a call that makes a sandbox, which no runtime surrounds.
--
-- Integers are natural numbers with the wrap-around of a release build written out. A loop over a
-- list is recursion on it. The request loops, which end only on a bad query, and the reaping of
-- children take fuel and say so if it runs out. The chunks of descriptors take as much fuel as there
-- are descriptors, which is enough since each chunk takes one at least. The search for a directory
-- takes as much as the path has bytes, which its theorem shows to be enough, and a walk through the
-- memory of a C caller as much as the address space has addresses.
--
-- Not modelled: the generated filter programs and the library that compiles them (arguments), the
-- argument parsers, log output, what the test master prints, the messages that `do_exec` and
-- `err_exit` write to standard error, and the derived debug output. `print_diagnostics` stands apart
-- from `do_exec`, whose model ends the process without it: a search that does not end would keep the
-- process.
pub mod Base
pub mod Uids
pub mod Util
pub mod Os
pub mod Options
pub mod Command
pub mod Report
pub mod Errors
pub mod Settings
pub mod Fds
pub mod Ipc
pub mod Jail
pub mod Limits
pub mod Zygote
pub mod Sandbox
pub mod Child
pub mod Cli
pub mod Host
pub mod Erased
pub mod Backend
pub mod Ffi
pub mod Harness
pub mod Ext
pub mod Codegen

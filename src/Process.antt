-- ===== src/Process.antt =====
-- kernel/src/process/mod.rs: the process table. The data; the children have the operations. A `Pid` is
-- a number, an i32 status the number of its 32 bits, and an `Arc` of an address space the number of the
-- space, so that `Arc::ptr_eq` is equality. The saved registers of a system call are a number too, and
-- the FPU state is left out.
pub mod Signals
pub mod Fds
pub mod Table
pub mod Exit
pub mod Becomes
pub mod Group
pub mod Ids
pub mod Tests
use ristux.Common.{
  ℕ, ◌+◌, Bool, true, false, ◌||◌, ◌==◌, if◌then◌else◌, Option, none, some, List, [], ◌∷◌, ◌++◌,
  length, any,
}
use ristux.Security.{Credentials}

abbrev pub init_pid : ℕ
init_pid = 1

abbrev pub max_fds : ℕ
max_fds = 256

abbrev pub max_wake_pids : ℕ
max_wake_pids = 256

abbrev pub max_wake_timed_waits : ℕ
max_wake_timed_waits = 4

pub data BlockReason : Type 0 where
  wait_child : ℕ → BlockReason
  wait_io : BlockReason
  wait_io_until : ℕ → BlockReason

pub data ExitReason : Type 0 where
  exited : ℕ → ExitReason
  signaled : ℕ → ExitReason

pub data ProcessState : Type 0 where
  ready running : ProcessState
  blocked : BlockReason → ProcessState
  stopped : ℕ → ProcessState
  zombie : ExitReason → ProcessState

pub record FdEntry : Type 0 where
  pub user_fd : ℕ
  pub vfs_fd : ℕ
  pub status_flags : ℕ
  pub fd_flags : ℕ

pub record TimedWait : Type 0 where
  pub key : ℕ
  pub deadline_ms : ℕ
  pub woken : Bool

pub record SharedMapping : Type 0 where
  pub addr : ℕ
  pub len : ℕ
  pub file_offset : ℕ
  pub vfs_fd : ℕ
  pub writable : Bool

pub data ControllingTty : Type 0 where
  console : ControllingTty
  pty : ℕ → ControllingTty

pub record Process : Type 0 where
  pub pid : ℕ
  pub parent : Option ℕ
  pub name : List ℕ
  pub cwd : List ℕ
  pub pgrp : ℕ
  pub sid : ℕ
  pub controlling_tty : Option ControllingTty
  pub pending_signals : ℕ
  pub pending_signal_status : Option ℕ
  pub signal_mask : ℕ
  pub signal_handlers : List ℕ
  pub signal_action_masks : List ℕ
  pub signal_flags : List ℕ
  pub state : ProcessState
  pub address_space : ℕ
  pub credentials : Credentials
  pub umask : ℕ
  pub rlimit_nofile_cur : ℕ
  pub rlimit_nofile_max : ℕ
  pub fds : List FdEntry
  pub socket_handles : List ℕ
  pub shared_mappings : List SharedMapping
  pub timed_wait : Option TimedWait
  pub next_fd : ℕ
  pub entry : ℕ
  pub stack_top : ℕ
  pub argc : ℕ
  pub argv_ptr : ℕ
  pub envp_ptr : ℕ
  pub exit_status : Option ℕ
  pub stop_reported : Bool
  pub continued_report_pending : Bool
  pub waiters : List ℕ
  pub is_user : Bool
  pub saved_syscall : Option ℕ
  pub interrupted_syscall : Bool
  pub user_fs_base : ℕ
  pub clear_child_tid : ℕ

pub record TimedWaitWake : Type 0 where
  pub key : ℕ
  pub limit : ℕ

-- The arrays up to their `len`.
pub record WakeList : Type 0 where
  pub pids : List ℕ
  pub overflow : Bool
  pub timed_waits : List TimedWaitWake
  pub timed_wait_overflow : Bool

-- `PROCESS_TABLE`, `CURRENT_PID`, the run queue of the dispatching processor, and the arguments of all
-- calls of `fs::close` and of `close` on the socket table so far.
pub record Kernel : Type 0 where
  pub processes : List Process
  pub next_pid : ℕ
  pub current : Option ℕ
  pub run_queue : List ℕ
  pub closed_fds : List ℕ
  pub closed_sockets : List ℕ

abbrev pub no_wake : WakeList
no_wake = record { pids = []; overflow = false; timed_waits = []; timed_wait_overflow = false }

abbrev pub contains : List ℕ → ℕ → Bool
contains xs x = any (λ y. y == x) xs

unfoldable pub push_unique : ℕ → WakeList → WakeList
push_unique pid w =
    if contains w.pids pid
    then w
    else if length w.pids == max_wake_pids
    then record w { overflow = true }
    else record w { pids = w.pids ++ (pid ∷ []) }

unfoldable pub push_timed_wait_key : ℕ → ℕ → WakeList → WakeList
push_timed_wait_key key limit w =
    if any (λ wake. wake.key == key) w.timed_waits
    then w
    else if length w.timed_waits == max_wake_timed_waits
    then record w { timed_wait_overflow = true }
    else record w { timed_waits = w.timed_waits ++ (record { key = key; limit = limit } ∷ []) }

abbrev pub push_pids : List ℕ → WakeList → WakeList
push_pids [] w = w
push_pids (p ∷ ps) w = push_pids ps (push_unique p w)

abbrev pub push_waits : List TimedWaitWake → WakeList → WakeList
push_waits [] w = w
push_waits (t ∷ ts) w = push_waits ts (push_timed_wait_key t.key t.limit w)

unfoldable pub extend : WakeList → WakeList → WakeList
extend w other =
    let v = push_pids other.pids w in
    let u = push_waits other.timed_waits (record v { overflow = v.overflow || other.overflow }) in
    record u { timed_wait_overflow = u.timed_wait_overflow || other.timed_wait_overflow }

abbrev pub is_zombie : ProcessState → Bool
is_zombie (zombie r) = true
is_zombie ready = false
is_zombie running = false
is_zombie (blocked r) = false
is_zombie (stopped s) = false

abbrev pub is_stopped : ProcessState → Bool
is_stopped (stopped s) = true
is_stopped (zombie r) = false
is_stopped ready = false
is_stopped running = false
is_stopped (blocked r) = false

abbrev pub is_ready : ProcessState → Bool
is_ready ready = true
is_ready (stopped s) = false
is_ready (zombie r) = false
is_ready running = false
is_ready (blocked r) = false

abbrev pub is_blocked : ProcessState → Bool
is_blocked (blocked r) = true
is_blocked (stopped s) = false
is_blocked (zombie r) = false
is_blocked running = false
is_blocked ready = false

unfoldable pub legacy_status : ExitReason → ℕ
legacy_status (exited status) = status
legacy_status (signaled signal) = 128 + signal

abbrev pub is_parent : Option ℕ → ℕ → Bool
is_parent none p = false
is_parent (some q) p = q == p

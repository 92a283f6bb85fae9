-- ===== src/Process/Table.antt =====
-- `ProcessTable` of kernel/src/process/mod.rs: lookups, wake-ups, job control and reaping, and the run
-- queue of kernel/src/sched/mod.rs that they feed. Resources go through `fs::close` and the socket
-- table, whose calls are recorded.
use ristux.Common.{
  ℕ, Bool, true, false, ◌||◌, not, ◌==◌, if◌then◌else◌, Option, none, some, List, [], ◌∷◌, ◌++◌,
  map, get_or, has_flag,
}
use ristux.Signal.{Signal, number, default_status}
use ristux.Process.{
  Process, ProcessState, ready, running, blocked, stopped, zombie, wait_child, wait_io,
  wait_io_until, ExitReason, legacy_status, WakeList, Kernel, no_wake, push_unique, is_zombie,
  is_stopped, is_parent, contains,
}
use ristux.Process.Signals.{is_ignored_signal, should_queue_signal, queue_signal, is_some_status}

abbrev pub find : ℕ → List Process → Option Process
find pid [] = none
find pid (p ∷ ps) = if p.pid == pid then some p else find pid ps

-- What `get_mut` reaches, changed.
abbrev pub modify : ℕ → (Process → Process) → List Process → List Process
modify pid f [] = []
modify pid f (p ∷ ps) = if p.pid == pid then f p ∷ ps else p ∷ modify pid f ps

abbrev pub remove_pid : ℕ → List Process → List Process
remove_pid pid [] = []
remove_pid pid (p ∷ ps) = if p.pid == pid then ps else p ∷ remove_pid pid ps

abbrev pub get : Kernel → ℕ → Option Process
get k pid = find pid k.processes

abbrev pub update : ℕ → (Process → Process) → Kernel → Kernel
update pid f k = record k { processes = modify pid f k.processes }

abbrev pub with_state : ProcessState → Process → Process
with_state s p = record p { state = s }

-- A wake list under way, and the kernel.
abbrev pub Waking : Type 0
Waking = WakeList × Kernel

unfoldable pub enqueue : ℕ → Kernel → Kernel
enqueue pid k =
    if contains k.run_queue pid then k else record k { run_queue = k.run_queue ++ (pid ∷ []) }

abbrev pub clear_current : Kernel → Kernel
clear_current k = record k { current = none }

pub data SigchldEvent : Type 0 where
  child_exited job_control : SigchldEvent

unfoldable pub suppresses : SigchldEvent → Process → Bool
suppresses child_exited p = false
suppresses job_control p = has_flag (get_or p.signal_flags 17 0) 1

unfoldable pub note_sigchld : SigchldEvent → Option ℕ → Process → Process
unfolding number
note_sigchld event current p =
    if suppresses event p
    then p
    else if is_ignored_signal p (default_status Signal.child)
    then p
    else if should_queue_signal p (default_status Signal.child) current
    then queue_signal p (default_status Signal.child)
    else p

unfoldable pub queue_sigchld : ℕ → SigchldEvent → Kernel → Kernel
queue_sigchld parent event k = update parent (note_sigchld event k.current) k

unfoldable pub waits_for : ProcessState → ℕ → Bool
waits_for (blocked (wait_child c)) child = c == child || c == 0
waits_for (blocked wait_io) child = false
waits_for (blocked (wait_io_until t)) child = false
waits_for ready child = false
waits_for running child = false
waits_for (stopped s) child = false
waits_for (zombie r) child = false

unfoldable pub wake_waiter_for_child : ℕ → ℕ → Waking → Waking
wake_waiter_for_child waiter child (w, k) = elim (get k waiter) [
  | none ↦ (w, k)
  | some p ↦
      if waits_for p.state child
      then (push_unique waiter w, update waiter (with_state ready) k)
      else (w, k)
]

unfoldable pub wake_each : List ℕ → ℕ → Waking → Waking
wake_each [] child s = s
wake_each (waiter ∷ rest) child s = wake_each rest child (wake_waiter_for_child waiter child s)

abbrev pub waiters_of : Option Process → List ℕ
waiters_of none = []
waiters_of (some p) = p.waiters

abbrev pub parent_of : Option Process → Option ℕ
parent_of none = none
parent_of (some p) = p.parent

abbrev pub forget_waiters : Process → Process
forget_waiters p = record p { waiters = [] }

-- `if let Some(parent) = … { self.wake_waiter_for_child(parent, pid, …) }`.
abbrev pub wake_parent : Option ℕ → ℕ → Waking → Waking
wake_parent none child s = s
wake_parent (some parent) child s = wake_waiter_for_child parent child s

abbrev pub sigchld_parent : Option ℕ → SigchldEvent → Kernel → Kernel
sigchld_parent none event k = k
sigchld_parent (some parent) event k = queue_sigchld parent event k

unfoldable pub wake_waiters_for : ℕ → Kernel → Waking
wake_waiters_for pid k =
    let waiters = waiters_of (get k pid) in
    let (w, l) = wake_each waiters pid (no_wake, update pid forget_waiters k) in
    wake_parent (parent_of (get l pid)) pid (w, l)

abbrev pub stop_fields : ℕ → Process → Process
stop_fields signal p = record p {
  state = stopped signal;
  exit_status = none;
  stop_reported = false;
  continued_report_pending = false;
}

-- `ProcessTable::stop`.
unfoldable pub stop_process : ℕ → ℕ → Kernel → Option WakeList × Kernel
stop_process pid signal k = elim (get k pid) [
  | none ↦ (none, k)
  | some p ↦
      if is_zombie p.state
      then (some no_wake, k)
      else (let l = update pid (stop_fields signal) k in
          let m = if is_some_status l.current pid then clear_current l else l in
          let (w, n) = wake_waiters_for pid (sigchld_parent p.parent job_control m) in (some w, n))
]

abbrev pub continue_fields : Process → Process
continue_fields p = record p {
  state = ready;
  stop_reported = false;
  continued_report_pending = true;
}

unfoldable pub continue_process : ℕ → Kernel → Option WakeList × Kernel
continue_process pid k = elim (get k pid) [
  | none ↦ (none, k)
  | some p ↦
      if is_stopped p.state
      then (let l = sigchld_parent p.parent job_control (update pid continue_fields k) in
          let (w, m) = wake_parent p.parent pid (push_unique pid no_wake, l) in (some w, m))
      else if is_zombie p.state
      then (none, k)
      else (some no_wake, k)
]

-- The calls of `fs::close` and on sockets when a process gives up what it holds. The writing of
-- shared mappings back to their files is left out.
unfoldable pub close_held : Process → Kernel → Kernel
close_held p k = record k {
  closed_fds = k.closed_fds ++ (map (λ m. m.vfs_fd) p.shared_mappings ++ map (λ e. e.vfs_fd) p.fds);
  closed_sockets = k.closed_sockets ++ p.socket_handles;
}

-- `reap`, with `Process::destroy`.
unfoldable pub reap : ℕ → Kernel → Kernel
reap pid k = elim (get k pid) [
  | none ↦ k
  | some p ↦ close_held p (record k { processes = remove_pid pid k.processes })
]

-- The status that a zombie leaves.
abbrev pub zombie_reason : ProcessState → Option ExitReason
zombie_reason (zombie r) = some r
zombie_reason (stopped s) = none
zombie_reason ready = none
zombie_reason running = none
zombie_reason (blocked r) = none

unfoldable pub wait : ℕ → ℕ → Kernel → Option ℕ × Kernel
wait parent child k = elim (get k child) [
  | none ↦ (none, k)
  | some p ↦ if not (is_parent p.parent parent) then (none, k) else elim (zombie_reason p.state) [
    | some reason ↦ (some (legacy_status reason), reap child k)
    | none ↦ (none, update parent (with_state (blocked (wait_child child))) k)
  ]
]

unfoldable pub reap_waited_zombie : ℕ → ℕ → Kernel → Bool × Kernel
reap_waited_zombie parent child k = elim (get k child) [
  | none ↦ (false, k)
  | some p ↦
      if not (is_parent p.parent parent) || not (is_zombie p.state)
      then (false, k)
      else (true, reap child k)
]

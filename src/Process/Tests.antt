-- ===== src/Process/Tests.antt =====
-- Small process tables for kernel/src/process/mod.rs, the end of a process in one, and the theorems
-- there.
use mathlib.Core.Option.{some-injective}
use ristux.Common.{
  ℕ, ◌≡◌, ◌⊎◌, ◌∙◌, refl, sym, ap, true, false, Option, none, some, List, [], ◌∷◌, map, arith,
}
use ristux.Common.Results.{ok, err}
use ristux.Security.{root, user, is_superuser}
use ristux.Process.Ids.{sets_uid, sets_resuid, sets_groups, calls}
use ristux.Process.Ids.Confined.{IsConfined, calls-IsConfined}
use ristux.Process.{
  Process, ProcessState, ready, running, blocked, zombie, wait_child, exited, Kernel, max_fds,
  push_unique,
}
use ristux.Signal.{number, from_number, from_high_number, default_status, has_ignore_default}
use ristux.Process.Signals.{
  is_ignored_signal, should_queue_signal, queue_signal, named_signal, has_ignored_default,
  is_uncatchable_signal, signal_from_legacy_status,
}
use ristux.Process.Table.{
  Waking, queue_sigchld, note_sigchld, suppresses, waits_for, wake_waiter_for_child, wake_each,
  close_held,
}
use ristux.Process.Becomes.{Becomes}
use ristux.Process.Exit.{
  Spaces, exit_with_reason, settle, bury, tid_wake, exit_live, adopt, adopt_from, notify_orphaned,
  reap_zombies, exit_and_reap_same_space_children, reparent_children_to_init,
  process_group_is_orphaned, has_job_parent, process_group_has_stopped_member,
}
use ristux.Process.Group.{exit_group}
use ristux.Process.Group.Over.{exit_group-Dead}
use ristux.Process.Exit.After.{
  Dead, Distinct, IsOver, exit_with_reason-returns, exit_with_reason-IsOver,
}
use ristux.Process.Fds.{
  too_many_open_files, out_of_memory, entry_at, fd_limit, set_fd_with_flags, lowest_from,
  lowest_available_fd, push_fd_with_all_flags,
}
use ristux.Process.Fds.Entries.{Unique, IsFdTable}
use ristux.Process.Fds.Lowest.{AllUsed, IsLowest, IsPut, entry, push_fd-outcome}
use ristux.Process.Fds.Calls.{user_dup, user_close, Fails, Dups, SameFiles, user_dup-outcome}
use ristux.Process.Fds.Replaced.{user_dup2}
use ristux.Process.Fds.Replaced.Outcome.{DupsTo, user_dup2-outcome}
use ristux.Process.Fds.Undone.{user_close-user_dup}
use ristux.Process.Fds.Duplicated.{duplicate_fd_entries}
use ristux.Process.Fds.Duplicated.Copied.{Failed, Copied, duplicate_fd_entries-outcome}
use ristux.Vfs.{pipe_read, pipe_write, Vfs, new_pipe}
use ristux.Vfs.Open.{
  handle_at, reserve_open_handle_slots, place, push_open_handle, with_pipe, duplicate_fd,
}
use ristux.Vfs.Counts.{IsCounted}
use ristux.Vfs.Tests.{plenty, piped, piped-IsCounted}

abbrev zeros : List ℕ
zeros =
    0 ∷ 0 ∷ 0 ∷ 0 ∷ 0 ∷ 0 ∷ 0 ∷ 0 ∷ 0 ∷ 0 ∷ 0 ∷ 0 ∷ 0 ∷ 0 ∷ 0 ∷ 0 ∷ 0 ∷ 0 ∷ 0 ∷ 0 ∷ 0 ∷ 0 ∷ 0 ∷ 0
    ∷ 0 ∷ 0 ∷ 0 ∷ 0 ∷ 0 ∷ 0 ∷ 0 ∷ 0 ∷ []

-- In an address space of its own, and a group of its own.
abbrev process : ℕ → Option ℕ → ProcessState → Process
process pid parent state = record {
  pid = pid;
  parent = parent;
  name = [];
  cwd = 47 ∷ [];
  pgrp = pid;
  sid = 1;
  controlling_tty = none;
  pending_signals = 0;
  pending_signal_status = none;
  signal_mask = 0;
  signal_handlers = zeros;
  signal_action_masks = zeros;
  signal_flags = zeros;
  state = state;
  address_space = pid;
  credentials = root;
  umask = 18;
  rlimit_nofile_cur = max_fds;
  rlimit_nofile_max = max_fds;
  fds = [];
  socket_handles = [];
  shared_mappings = [];
  timed_wait = none;
  next_fd = 3;
  entry = 0;
  stack_top = 0;
  argc = 0;
  argv_ptr = 0;
  envp_ptr = 0;
  exit_status = none;
  stop_reported = false;
  continued_report_pending = false;
  waiters = [];
  is_user = true;
  saved_syscall = none;
  interrupted_syscall = false;
  user_fs_base = 0;
  clear_child_tid = 0;
}

abbrev init : Process
init = process 1 none (blocked (wait_child 0))

abbrev shell : Process
shell = process 2 (some 1) running

abbrev job : Process
job = process 3 (some 2) ready

abbrev kernel : Kernel
kernel = record {
  processes = init ∷ shell ∷ job ∷ [];
  next_pid = 4;
  current = some 2;
  run_queue = 3 ∷ [];
  closed_fds = [];
  closed_sockets = [];
}

abbrev env : Spaces
env = record { can_write = λ space addr. true; p4_phys = λ space. space }

kernel-Distinct : Distinct kernel.processes
unfolding Distinct
kernel-Distinct = (refl, (refl, (refl, tt)))

-- What a parent sees of a process: its number, its parent, its state.
abbrev seen : Process → ℕ × Option ℕ × ProcessState
seen p = (p.pid, p.parent, p.state)

abbrev outcome : Option Waking → List (ℕ × Option ℕ × ProcessState)
outcome none = []
outcome (some t) = map seen t.1.processes

-- The shell ends: its job goes to init, and init, which waits for a child, is woken.
exit_lem :
    outcome (exit_with_reason env 3 2 (exited 0) kernel)
    ≡ (1, none, ready) ∷ (2, some 1, zombie (exited 0)) ∷ (3, some 1, ready) ∷ []
unfolding exit_with_reason settle bury tid_wake close_held adopt adopt_from notify_orphaned
    reap_zombies exit_and_reap_same_space_children reparent_children_to_init
    process_group_is_orphaned wake_each wake_waiter_for_child waits_for queue_sigchld note_sigchld
    suppresses exit_live push_unique has_job_parent process_group_has_stopped_member
    is_ignored_signal should_queue_signal queue_signal named_signal has_ignored_default
    is_uncatchable_signal signal_from_legacy_status number from_number from_high_number
    default_status has_ignore_default
exit_lem = refl

exit_with_reason-returns_example :
    (t : Waking) × (exit_with_reason env 14 2 (exited 0) kernel ≡ some t)
    × Becomes kernel.processes t.1.processes
exit_with_reason-returns_example = exit_with_reason-returns env 14 2 (exited 0) kernel (omega arith)

exit_with_reason-IsOver_example :
    (t : Waking) × (exit_with_reason env 14 2 (exited 0) kernel ≡ some t) × IsOver 2 t.1.processes
exit_with_reason-IsOver_example =
    exit_with_reason-IsOver env 14 2 (exited 0) kernel shell (omega arith) kernel-Distinct refl
      (λ e. absurd (omega (arith, e)))

-- A second thread of the shell.
abbrev thread : Process
thread = record job { address_space = 2 }

abbrev threads : Kernel
threads = record kernel { processes = init ∷ shell ∷ thread ∷ [] }

threads-Distinct : Distinct threads.processes
unfolding Distinct
threads-Distinct = (refl, (refl, (refl, tt)))

exit_group-Dead_example :
    (t : Waking) × (exit_group env 14 2 0 threads ≡ some t)
    × Becomes threads.processes t.1.processes
    × Distinct t.1.processes
    × Dead thread.pid t.1.processes
exit_group-Dead_example =
    exit_group-Dead env 14 2 0 threads shell thread (omega arith) threads-Distinct refl refl refl

-- Descriptors 0, 1 and 3, of which 1 is the write end of a pipe.
abbrev holder : Process
holder = record shell { fds = entry 0 0 0 0 ∷ entry 1 1 2048 1 ∷ entry 3 0 0 0 ∷ [] }

holder-IsFdTable : IsFdTable holder.fds
unfolding Unique
holder-IsFdTable = record {
  unique = (refl, (refl, (refl, tt)));
  bounded = (omega arith, (omega arith, (omega arith, tt)));
}

push_fd-outcome_example :
    (AllUsed 0 (fd_limit holder) holder.fds
      × (push_fd_with_all_flags true 7 0 0 holder ≡ (err too_many_open_files, holder)))
    ⊎ ((true ≡ false) × (push_fd_with_all_flags true 7 0 0 holder ≡ (err out_of_memory, holder)))
    ⊎ ((n : ℕ) × (q : Process) × (push_fd_with_all_flags true 7 0 0 holder ≡ (ok n, q))
        × IsLowest 0 (fd_limit holder) n holder.fds
        × IsPut (entry n 7 0 0) holder.fds q.fds)
push_fd-outcome_example = push_fd-outcome true 7 0 0 holder holder-IsFdTable

user_dup-outcome_example :
    Fails (user_dup plenty true 1 holder piped) holder piped
    ⊎ Dups (user_dup plenty true 1 holder piped) 1 holder piped
user_dup-outcome_example =
    user_dup-outcome plenty true 1 holder piped holder-IsFdTable piped-IsCounted

abbrev copied : Process
copied = record holder {
  fds = entry 0 0 0 0 ∷ entry 1 1 2048 1 ∷ entry 3 0 0 0 ∷ entry 2 2 2048 0 ∷ [];
}

-- A third descriptor, and a second writer.
abbrev copied_vfs : Vfs
copied_vfs = record {
  open_files = some (pipe_read 0) ∷ some (pipe_write 0) ∷ some (pipe_write 0) ∷ [];
  pipes = record (new_pipe 4) { writers = 2 } ∷ [];
  ptys = [];
}

user_dup_lem : user_dup plenty true 1 holder piped ≡ (ok 2, copied, copied_vfs)
unfolding user_dup duplicate_fd push_open_handle place reserve_open_handle_slots with_pipe
    push_fd_with_all_flags lowest_available_fd lowest_from set_fd_with_flags fd_limit
user_dup_lem = refl

user_close-user_dup_example :
    (r : Process) × (u : Vfs) × (user_close 2 copied copied_vfs ≡ (ok tt, r, u))
    × ((m : ℕ) → entry_at m r.fds ≡ entry_at m holder.fds)
    × SameFiles piped u
    × IsFdTable r.fds
    × IsCounted u
user_close-user_dup_example =
    user_close-user_dup plenty true 1 2 holder copied piped copied_vfs holder-IsFdTable
      piped-IsCounted user_dup_lem

-- Onto number 3, which is in use.
user_dup2-outcome_example :
    Fails (user_dup2 plenty true 1 3 holder piped) holder piped
    ⊎ DupsTo (user_dup2 plenty true 1 3 holder piped) 1 3 0 holder piped
user_dup2-outcome_example =
    user_dup2-outcome plenty true 1 3 holder piped (λ e. absurd (omega (arith, e))) holder-IsFdTable
      piped-IsCounted
      (λ old e f.
        let g : some (pipe_read 0) ≡ none =
          sym (ap (handle_at piped.open_files) (some-injective _ _ (sym e))) ∙ f in
        absurd (cc g))

duplicate_fd_entries-outcome_example :
    Failed (duplicate_fd_entries true plenty holder.fds piped) piped
    ⊎ Copied (duplicate_fd_entries true plenty holder.fds piped) holder.fds piped
duplicate_fd_entries-outcome_example =
    duplicate_fd_entries-outcome true plenty holder.fds piped piped-IsCounted

-- The second call is allowed, the first and the third are not.
calls-IsConfined_example :
    IsConfined (user 100 50) (
      calls
        (sets_uid 0 ∷ sets_resuid (some 100) none none ∷ sets_groups (7 ∷ []) ∷ [])
        (user 100 50))
    × (is_superuser (
          calls
            (sets_uid 0 ∷ sets_resuid (some 100) none none ∷ sets_groups (7 ∷ []) ∷ [])
            (user 100 50))
        ≡ false)
calls-IsConfined_example =
    calls-IsConfined (sets_uid 0 ∷ sets_resuid (some 100) none none ∷ sets_groups (7 ∷ []) ∷ [])
      (user 100 50) (λ e. absurd (omega (arith, e))) (λ e. absurd (omega (arith, e)))
      (λ e. absurd (omega (arith, e)))

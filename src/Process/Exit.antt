-- ===== src/Process/Exit.antt =====
-- `exit_with_reason` and `signal` of kernel/src/process/mod.rs with all that they call: the end of a
-- process ends its threads, hands its children to init, and hangs up on process groups that this
-- leaves without a parent, which may end further processes. The recursion is on fuel; none is that
-- it ran out.
pub mod Ends
pub mod Adoption
pub mod Children
pub mod Total
pub mod After
use Prim.Native.Nat.{bit_xor}
use ristux.Common.{
  ℕ, zero, suc, ◌+◌, ◌-◌, ◌*◌, ◌/◌, ◌%◌, ◌^◌, Bool, true, false, ◌&&◌, ◌||◌, not, ◌==◌,
  if◌then◌else◌, Option, none, some, List, [], ◌∷◌, ◌++◌, length, get_elem?, set, any, u64_max,
}
use ristux.Signal.{Signal, hup, cont, default_status}
use ristux.Process.{
  Process, ProcessState, ready, zombie, ExitReason, exited, signaled, legacy_status, WakeList,
  Kernel, no_wake, push_unique, push_timed_wait_key, extend, is_zombie, is_stopped, is_blocked,
  is_parent, contains, init_pid,
}
use ristux.Process.Signals.{
  signal_from_legacy_status, stop_signal_from_status, is_ignored_signal,
  discard_pending_signal_interactions, should_queue_signal, queue_signal,
  next_deliverable_pending_signal, is_some_status, is_cont,
}
use ristux.Process.Table.{
  find, get, update, Waking, clear_current, child_exited, wake_waiter_for_child, wake_each,
  wake_parent, sigchld_parent, parent_of, stop_process, continue_process, close_held, reap,
}

-- What the address spaces answer: whether a user address can be written, and the root table.
pub record Spaces : Type 0 where
  pub can_write : ℕ → ℕ → Bool
  pub p4_phys : ℕ → ℕ

-- `u64::rotate_left` by a number below 64.
abbrev pub rotate_left : ℕ → ℕ → ℕ
rotate_left word n = word * 2 ^ n % (u64_max + 1) + word / 2 ^ (64 - n)

unfoldable pub timed_wait_key : ℕ → ℕ → ℕ → ℕ → ℕ
timed_wait_key nr a0 a1 a2 =
    bit_xor (bit_xor (bit_xor (rotate_left nr 48) (rotate_left a0 17)) (rotate_left a1 7)) a2

-- With `NR_futex`, which is 202.
unfoldable pub clear_child_tid_wait_key : ℕ → ℕ → ℕ
clear_child_tid_wait_key clear_tid space_key = timed_wait_key 202 clear_tid space_key 0

infixl 5 ◌>>=◌
abbrev pub ◌>>=◌ {ℓ κ} : {A : Type ℓ} {B : Type κ} → Option A → (A → Option B) → Option B
none >>= f = none
some a >>= f = f a

-- The wake-ups on the word that is cleared when a thread ends. The word is user memory, left out.
unfoldable pub tid_wake : Spaces → Process → WakeList
tid_wake env p =
    let private_key = clear_child_tid_wait_key p.clear_child_tid (env.p4_phys p.address_space) in
    let shared_key = clear_child_tid_wait_key p.clear_child_tid 0 in
    let w = push_timed_wait_key private_key u64_max no_wake in
    if p.clear_child_tid == 0 || not (env.can_write p.address_space p.clear_child_tid)
    then no_wake
    else if shared_key == private_key
    then w
    else push_timed_wait_key shared_key u64_max w

abbrev pub buried : ExitReason → Process → Process
buried reason p = record p {
  state = zombie reason;
  exit_status = some (legacy_status reason);
  clear_child_tid = 0;
  shared_mappings = [];
  fds = [];
  socket_handles = [];
  waiters = [];
}

-- The block that takes `waiters`. `last_address_space_owner` is false there, since the function itself
-- holds a second `Arc` of the space, and the pages stay until the process is reaped.
unfoldable pub bury : ℕ → ExitReason → Process → Kernel → Kernel
bury pid reason p k =
    let l = close_held p (update pid (buried reason) k) in
    if is_some_status l.current pid then clear_current l else l

-- The branch of `signal` that queues; a blocked system call is interrupted if the signal is deliverable.
abbrev pub interrupts : Option ℕ → ProcessState → Bool
interrupts none state = false
interrupts (some n) state = is_blocked state

abbrev pub interrupted : Process → Process
interrupted p = record p { interrupted_syscall = true; state = ready }

unfoldable pub queue_on : ℕ → ℕ → Process → Kernel → Option WakeList × Kernel
queue_on pid status p k =
    let l = update pid (λ r. queue_signal r status) k in
    if interrupts (next_deliverable_pending_signal (queue_signal p status)) p.state
    then (some (push_unique pid no_wake), update pid interrupted l)
    else (some no_wake, l)

-- The reason of the exit that a status asks for.
unfoldable pub reason_of : ℕ → ExitReason
reason_of status = elim (signal_from_legacy_status status) [
  | some n ↦ signaled n
  | none ↦ exited status
]

abbrev pub extend_some : WakeList → Option WakeList → WakeList
extend_some w none = w
extend_some w (some v) = extend w v

module _ (exit : ℕ → ExitReason → Kernel → Option Waking) where
  unfoldable pub exit_live : List ℕ → ExitReason → Waking → Option Waking
  exit_live [] reason s = some s
  exit_live (child ∷ rest) reason (w, k) = elim (get k child) [
    | none ↦ exit_live rest reason (w, k)
    | some p ↦ elim (is_zombie p.state) [
      | true ↦ exit_live rest reason (w, k)
      | false ↦ exit child reason k >>= λ s. exit_live rest reason (extend w s.0, s.1)
    ]
  ]

  -- `ProcessTable::signal`.
  unfoldable pub signal : ℕ → ℕ → Option ℕ → Kernel → Option (Option WakeList × Kernel)
  signal pid status current k =
      let l = update pid (λ p. discard_pending_signal_interactions p status) k in
      elim (get l pid) [
        | none ↦ some (none, k)
        | some p ↦
            if is_ignored_signal p status
            then some (some no_wake, l)
            else if should_queue_signal p status current
            then some (queue_on pid status p l)
            else elim (stop_signal_from_status status) [
              | some n ↦ some (stop_process pid n l)
              | none ↦ exit pid (reason_of status) l >>= λ s. some (some s.0, s.1)
            ]
      ]

  unfoldable pub signal_each : List ℕ → Signal → Waking → Option Waking
  signal_each [] sig s = some s
  signal_each (pid ∷ rest) sig (w, k) =
      let (continued, l) = continue_process pid k in
      let (v, m) : Waking = if is_cont sig then (extend_some w continued, l) else (w, k) in
      signal pid (default_status sig) m.current m >>= λ r.
      signal_each rest sig (extend_some v r.0, r.1)

abbrev pub members_of : ℕ → List Process → List ℕ
members_of pgrp [] = []
members_of pgrp (p ∷ ps) =
    let rest = members_of pgrp ps in
    if p.pgrp == pgrp && not (is_zombie p.state) then p.pid ∷ rest else rest

-- Whether this member has a parent in its session and outside its group, who controls jobs.
unfoldable pub has_job_parent : List Process → Process → Bool
has_job_parent all p = elim (parent_of (some p)) [
  | none ↦ false
  | some q ↦ elim (find q all) [
    | none ↦ false
    | some parent ↦
        not (parent.pid == init_pid)
        && (parent.sid == p.sid && not (parent.pgrp == p.pgrp) && not (is_zombie parent.state))
  ]
]

unfoldable pub process_group_is_orphaned : ℕ → List Process → Bool
process_group_is_orphaned pgrp all =
    not (any (λ p. p.pgrp == pgrp && not (is_zombie p.state) && has_job_parent all p) all)

unfoldable pub process_group_has_stopped_member : ℕ → List Process → Bool
process_group_has_stopped_member pgrp all = any (λ p. p.pgrp == pgrp && is_stopped p.state) all

abbrev pub hangs_up : ℕ → Kernel → Bool
hangs_up pgrp k =
    process_group_is_orphaned pgrp k.processes && process_group_has_stopped_member pgrp k.processes

module _ (exit : ℕ → ExitReason → Kernel → Option Waking) where
  abbrev pub signal_process_group : ℕ → Signal → Waking → Option Waking
  signal_process_group pgrp sig s = signal_each exit (members_of pgrp s.1.processes) sig s

  unfoldable pub notify_orphaned : List ℕ → Waking → Option Waking
  notify_orphaned [] s = some s
  notify_orphaned (pgrp ∷ rest) s = elim (hangs_up pgrp s.1) [
    | false ↦ notify_orphaned rest s
    | true ↦ signal_process_group pgrp hup s >>= λ t.
        signal_process_group pgrp cont t >>= λ u. notify_orphaned rest u
  ]

abbrev pub push_group : ℕ → List ℕ → List ℕ
push_group pgrp groups = if contains groups pgrp then groups else groups ++ (pgrp ∷ [])

abbrev pub new_parent : Kernel → Option ℕ
new_parent k = elim (get k init_pid) [ none ↦ none | some p ↦ some init_pid ]

abbrev pub is_waitable : ProcessState → Bool
is_waitable state = is_zombie state || is_stopped state

-- One round of the loop: the process at the index, and the groups that may be orphaned.
unfoldable pub adopt : ℕ → Option ℕ → ℕ → List ℕ × Waking → List ℕ × Waking
adopt old_parent parent index (groups, (w, k)) = elim (get_elem? k.processes index) [
  | none ↦ (groups, (w, k))
  | some p ↦
      if not (is_parent p.parent old_parent)
      then (groups, (w, k))
      else (let l : Kernel = record k {
        processes = set k.processes index (record p { parent = parent });
      } in
          (
            push_group p.pgrp groups,
            if is_parent parent init_pid && is_waitable p.state
                then wake_waiter_for_child init_pid p.pid (w, l)
                else (w, l),
          ))
]

unfoldable pub adopt_from : ℕ → ℕ → Option ℕ → ℕ → List ℕ × Waking → List ℕ × Waking
adopt_from zero old_parent parent index s = s
adopt_from (suc rounds) old_parent parent index s =
    adopt_from rounds old_parent parent (suc index) (adopt old_parent parent index s)

abbrev pub same_space_children : ℕ → ℕ → List Process → List ℕ
same_space_children parent space [] = []
same_space_children parent space (p ∷ ps) =
    let rest = same_space_children parent space ps in
    if is_parent p.parent parent && p.address_space == space then p.pid ∷ rest else rest

unfoldable pub reap_zombies : List ℕ → Kernel → Kernel
reap_zombies [] k = k
reap_zombies (child ∷ rest) k =
    reap_zombies rest
      (elim (get k child) [ none ↦ k | some p ↦ if is_zombie p.state then reap child k else k ])

module _ (exit : ℕ → ExitReason → Kernel → Option Waking) where
  unfoldable pub exit_and_reap_same_space_children : ℕ → ℕ → ExitReason → Waking → Option Waking
  exit_and_reap_same_space_children parent space reason s =
      let children = same_space_children parent space s.1.processes in
      exit_live exit children reason s >>= λ t. some (t.0, reap_zombies children t.1)

  unfoldable pub reparent_children_to_init : ℕ → Waking → Option Waking
  reparent_children_to_init old_parent s =
      let (groups, t) = adopt_from (length s.1.processes) old_parent (new_parent s.1) 0 ([], s) in
      if old_parent == init_pid then some s else notify_orphaned exit groups t

  -- What follows the death of a process in the table.
  unfoldable pub settle : ℕ → ExitReason → Process → Waking → Option Waking
  settle pid reason p s = exit_and_reap_same_space_children pid p.address_space reason s >>= λ t.
      reparent_children_to_init pid t >>= λ u.
      let (w, k) = wake_each p.waiters pid u in
      some (wake_parent p.parent pid (w, sigchld_parent p.parent child_exited k))

unfoldable pub exit_with_reason : Spaces → ℕ → ℕ → ExitReason → Kernel → Option Waking
exit_with_reason env zero pid reason k = none
exit_with_reason env (suc fuel) pid reason k = elim (get k pid) [
  | none ↦ some (no_wake, k)
  | some p ↦ settle (exit_with_reason env fuel) pid reason p (tid_wake env p, bury pid reason p k)
]

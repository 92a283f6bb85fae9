-- ===== src/Process/Becomes/Steps.antt =====
-- The operations of the table that call no exit change it in these ways only.
use mathlib.Core.Path.{subst}
use mathlib.Core.Option.{some-injective}
use ristux.Common.{
  ℕ, ◌≡◌, ◌∙◌, refl, sym, ap, Bool, true, false, Bool-cases, Option-cases, inl, inr, if◌then◌else◌,
  Option, none, some, List, [], ◌∷◌, arith,
}
use ristux.Process.{
  Process, ProcessState, ready, running, blocked, stopped, zombie, Kernel, is_zombie, is_stopped,
  no_wake, push_unique,
}
use ristux.Process.Signals.{queue_signal, is_some_status}
use ristux.Process.Table.{
  get, update, Waking, clear_current, SigchldEvent, job_control, note_sigchld, queue_sigchld,
  waits_for, wake_waiter_for_child, wake_each, wake_parent, sigchld_parent, waiters_of, parent_of,
  forget_waiters, wake_waiters_for, stop_fields, stop_process, continue_fields, continue_process,
  close_held, reap,
}
use ristux.Process.Becomes.{
  Evolves, Becomes, Becomes-refl, Becomes-trans, modify-Becomes, remove_pid-Becomes,
}

-- A change that leaves number, state and parent alone.
pub unchanged :
    {p q : Process} → q.pid ≡ p.pid → q.state ≡ p.state → q.parent ≡ p.parent → Evolves p q
unchanged i s a = record { same_pid = i; still_dead = λ h. ap is_zombie s ∙ h; parents = inl a }

-- A change of a process that is not a zombie.
pub living :
    {p q : Process} → is_zombie p.state ≡ false → q.pid ≡ p.pid → q.parent ≡ p.parent → Evolves p q
living l i a = record { same_pid = i; still_dead = λ h. cc; parents = inl a }

-- The process list of a kernel under way.
abbrev pub table : Waking → List Process
table s = s.1.processes

note_sigchld-Evolves :
    (event : SigchldEvent) (current : Option ℕ) (p : Process)
    → Evolves p (note_sigchld event current p)
unfolding note_sigchld queue_signal
note_sigchld-Evolves event current p = unchanged (ground arith) (ground arith) (ground arith)

pub queue_sigchld-Becomes :
    (parent : ℕ) (event : SigchldEvent) (k : Kernel)
    → Becomes k.processes (queue_sigchld parent event k).processes
unfolding queue_sigchld
queue_sigchld-Becomes parent event k =
    modify-Becomes parent _ k.processes (λ p h. note_sigchld-Evolves event k.current p)

pub sigchld_parent-Becomes :
    (parent : Option ℕ) (event : SigchldEvent) (k : Kernel)
    → Becomes k.processes (sigchld_parent parent event k).processes
sigchld_parent-Becomes none event k = Becomes-refl k.processes
sigchld_parent-Becomes (some parent) event k = queue_sigchld-Becomes parent event k

waiting_lives : (s : ProcessState) (c : ℕ) → waits_for s c ≡ true → is_zombie s ≡ false
unfolding waits_for
waiting_lives (blocked r) c h = refl
waiting_lives ready c h = refl
waiting_lives running c h = refl
waiting_lives (stopped n) c h = refl
waiting_lives (zombie r) c h = cc

pub wake_waiter-Becomes :
    (waiter child : ℕ) (s : Waking)
    → Becomes (table s) (table (wake_waiter_for_child waiter child s))
unfolding wake_waiter_for_child
wake_waiter-Becomes waiter child (w, k) = elim (Option-cases (get k waiter)) [
  | inl e ↦ rw (e, wake_waiter_for_child) (Becomes-refl k.processes)
  | inr (p, e) ↦ elim (Bool-cases (waits_for p.state child)) [
    | inr f ↦ rw (e, wake_waiter_for_child, f) (Becomes-refl k.processes)
    | inl f ↦
        rw (e, wake_waiter_for_child, f)
          (modify-Becomes waiter _ k.processes (λ q h.
            living
              (ap (λ (r : Process). is_zombie r.state) (some-injective _ _ (sym h ∙ e))
                ∙ waiting_lives p.state child f)
              refl refl))
  ]
]

pub wake_each-Becomes :
    (waiters : List ℕ) (child : ℕ) (s : Waking)
    → Becomes (table s) (table (wake_each waiters child s))
unfolding wake_each
wake_each-Becomes [] child s = Becomes-refl (table s)
wake_each-Becomes (waiter ∷ rest) child s =
    Becomes-trans (wake_waiter-Becomes waiter child s)
      (wake_each-Becomes rest child (wake_waiter_for_child waiter child s))

pub wake_parent-Becomes :
    (parent : Option ℕ) (child : ℕ) (s : Waking)
    → Becomes (table s) (table (wake_parent parent child s))
wake_parent-Becomes none child s = Becomes-refl (table s)
wake_parent-Becomes (some parent) child s = wake_waiter-Becomes parent child s

pub wake_waiters_for-Becomes :
    (pid : ℕ) (k : Kernel) → Becomes k.processes (wake_waiters_for pid k).1.processes
unfolding wake_waiters_for
wake_waiters_for-Becomes pid k =
    let forgotten = update pid forget_waiters k in
    let woken = wake_each (waiters_of (get k pid)) pid (no_wake, forgotten) in
    Becomes-trans (modify-Becomes pid forget_waiters k.processes (λ p h. unchanged refl refl refl))
      (Becomes-trans (wake_each-Becomes (waiters_of (get k pid)) pid (no_wake, forgotten))
        (wake_parent-Becomes (parent_of (get woken.1 pid)) pid woken))

clear_if : (b : Bool) (k : Kernel) → (if b then clear_current k else k).processes ≡ k.processes
clear_if true k = refl
clear_if false k = refl

pub stop_process-Becomes :
    (pid signal : ℕ) (k : Kernel) → Becomes k.processes (stop_process pid signal k).1.processes
unfolding stop_process
stop_process-Becomes pid signal k = elim (Option-cases (get k pid)) [
  | inl e ↦ rw (e, stop_process) (Becomes-refl k.processes)
  | inr (p, e) ↦ elim (Bool-cases (is_zombie p.state)) [
    | inl f ↦ rw (e, stop_process, f) (Becomes-refl k.processes)
    | inr f ↦
        rw (e, stop_process, f)
          (let l = update pid (stop_fields signal) k in
            let m = if is_some_status l.current pid then clear_current l else l in
            Becomes-trans
              (modify-Becomes pid (stop_fields signal) k.processes (λ q h.
                living
                  (ap (λ (r : Process). is_zombie r.state) (some-injective _ _ (sym h ∙ e)) ∙ f)
                  refl refl))
              (Becomes-trans
                (subst (λ ps. Becomes ps (sigchld_parent p.parent job_control m).processes)
                  (clear_if (is_some_status l.current pid) l)
                  (sigchld_parent-Becomes p.parent job_control m))
                (wake_waiters_for-Becomes pid (sigchld_parent p.parent job_control m))))
  ]
]

stopped_lives : (s : ProcessState) → is_stopped s ≡ true → is_zombie s ≡ false
stopped_lives (stopped n) h = refl
stopped_lives ready h = refl
stopped_lives running h = refl
stopped_lives (blocked r) h = refl
stopped_lives (zombie r) h = cc

pub continue_process-Becomes :
    (pid : ℕ) (k : Kernel) → Becomes k.processes (continue_process pid k).1.processes
unfolding continue_process
continue_process-Becomes pid k = elim (Option-cases (get k pid)) [
  | inl e ↦ rw (e, continue_process) (Becomes-refl k.processes)
  | inr (p, e) ↦ elim (Bool-cases (is_stopped p.state)) [
    | inl f ↦
        rw (e, continue_process, f)
          (let l = sigchld_parent p.parent job_control (update pid continue_fields k) in
            Becomes-trans
              (modify-Becomes pid continue_fields k.processes (λ q h.
                living
                  (ap (λ (r : Process). is_zombie r.state) (some-injective _ _ (sym h ∙ e))
                    ∙ stopped_lives p.state f)
                  refl refl))
              (Becomes-trans
                (sigchld_parent-Becomes p.parent job_control (update pid continue_fields k))
                (wake_parent-Becomes p.parent pid (push_unique pid no_wake, l))))
    | inr f ↦ elim (Bool-cases (is_zombie p.state)) [
      | inl g ↦ rw (e, continue_process, f, g) (Becomes-refl k.processes)
      | inr g ↦ rw (e, continue_process, f, g) (Becomes-refl k.processes)
    ]
  ]
]

pub reap-Becomes : (pid : ℕ) (k : Kernel) → Becomes k.processes (reap pid k).processes
unfolding reap close_held
reap-Becomes pid k = elim (Option-cases (get k pid)) [
  | inl e ↦ rw (e, reap) (Becomes-refl k.processes)
  | inr (p, e) ↦ rw (e, reap) (remove_pid-Becomes pid k.processes)
]

-- ===== src/Process/Exit/Ends.antt =====
-- The recursion of `exit_with_reason` ends: each level either ends a process, or finds one already
-- ended and then adopts a child or ends a thread.
use mathlib.Core.Option.{some-injective}
use ristux.Common.{
  ℕ, ◌+◌, ◌*◌, ◌<◌, ◌≡◌, ◌∙◌, refl, sym, ap, true, false, Bool-cases, Option-cases, inl, inr,
  if◌then◌else◌, Option, none, some, List, [], ◌∷◌, arith,
}
use ristux.Signal.{Signal, hup, cont, default_status}
use ristux.Process.{
  Process, ProcessState, ready, running, blocked, stopped, zombie, Kernel, ExitReason, is_zombie,
  extend, WakeList,
}
use ristux.Process.Signals.{
  stop_signal_from_status, is_ignored_signal, discard_pending_signal_interactions,
  should_queue_signal, is_cont, clear_pending_signal, queue_signal, next_deliverable_pending_signal,
}
use ristux.Process.Table.{get, update, Waking, continue_process}
use ristux.Process.Becomes.{
  Becomes, Becomes-refl, Becomes-trans, modify-Becomes, weigh, Becomes-weigh, find-modify,
}
use ristux.Process.Becomes.Steps.{
  table, unchanged, living, stop_process-Becomes, continue_process-Becomes,
}
use ristux.Process.Exit.{
  ◌>>=◌, exit_live, signal, signal_each, extend_some, queue_on, interrupts, interrupted, reason_of,
  hangs_up, signal_process_group, notify_orphaned, members_of,
}

-- The computation returns, with a table that the first one may become.
abbrev pub Done : Option Waking → List Process → Type 0
Done o ps = (t : Waking) × (o ≡ some t) × Becomes ps (table t)

pub Done-bind :
    (o : Option Waking) (g : Waking → Option Waking) (ps : List Process)
    → Done o ps
    → ((t : Waking) → Becomes ps (table t) → Done (g t) (table t))
    → Done (o >>= g) ps
Done-bind o g ps (t, e, b) h =
    let (u, f, c) = h t b in (u, ap (λ o. o >>= g) e ∙ f, Becomes-trans b c)

-- What `exit` does with fuel `n`: more is needed for a process that is a zombie already.
pub record Ends (n : ℕ) (exit : ℕ → ExitReason → Kernel → Option Waking) : Type 0 where
  pub any_process :
      (pid : ℕ) (reason : ExitReason) (k : Kernel)
      → 2 * weigh k.processes + 1 < n
      → Done (exit pid reason k) k.processes
  pub live_process :
      (pid : ℕ) (reason : ExitReason) (k : Kernel) (p : Process)
      → get k pid ≡ some p
      → is_zombie p.state ≡ false
      → 2 * weigh k.processes < n
      → Done (exit pid reason k) k.processes

discard-Becomes :
    (pid status : ℕ) (k : Kernel)
    → Becomes k.processes
        (update pid (λ p. discard_pending_signal_interactions p status) k).processes
unfolding discard_pending_signal_interactions clear_pending_signal
discard-Becomes pid status k =
    modify-Becomes pid _ k.processes (λ p h. unchanged (ground arith) (ground arith) (ground arith))

blocked_lives : (s : ProcessState) (o : Option ℕ) → interrupts o s ≡ true → is_zombie s ≡ false
blocked_lives (blocked r) o h = refl
blocked_lives ready none h = refl
blocked_lives ready (some m) h = refl
blocked_lives running o h = refl
blocked_lives (stopped m) o h = refl
blocked_lives (zombie r) none h = cc
blocked_lives (zombie r) (some m) h = cc

queued_state : (p : Process) (status : ℕ) → (queue_signal p status).state ≡ p.state
unfolding queue_signal
queued_state p status = refl

queued_pid : (status : ℕ) (p : Process) → (queue_signal p status).pid ≡ p.pid
unfolding queue_signal
queued_pid status p = refl

queue-Becomes :
    (pid status : ℕ) (k : Kernel)
    → Becomes k.processes (update pid (λ r. queue_signal r status) k).processes
unfolding queue_signal
queue-Becomes pid status k = modify-Becomes pid _ k.processes (λ p h. unchanged refl refl refl)

queue_on-Becomes :
    (pid status : ℕ) (p : Process) (k : Kernel)
    → get k pid ≡ some p
    → Becomes k.processes (queue_on pid status p k).1.processes
unfolding queue_on
queue_on-Becomes pid status p k e =
    let o = next_deliverable_pending_signal (queue_signal p status) in
    elim (Bool-cases (interrupts o p.state)) [
      | inr f ↦ rw f (queue-Becomes pid status k)
      | inl f ↦ rw f (
          Becomes-trans (queue-Becomes pid status k) (
            modify-Becomes pid interrupted (update pid (λ r. queue_signal r status) k).processes
              (λ q h.
                living
                  (ap (λ (r : Process). is_zombie r.state)
                      (some-injective _ _ (
                        sym h
                        ∙ find-modify pid (λ r. queue_signal r status) k.processes p
                            (queued_pid status) e))
                    ∙ ap is_zombie (queued_state p status)
                    ∙ blocked_lives p.state o f)
                  refl refl)))
    ]

module _ {n : ℕ} {exit : ℕ → ExitReason → Kernel → Option Waking} (ends : Ends n exit) where
  pub exit_live-Done :
      (children : List ℕ) (reason : ExitReason) (s : Waking)
      → 2 * weigh (table s) < n
      → Done (exit_live exit children reason s) (table s)
  unfolding exit_live
  exit_live-Done [] reason s h = (s, refl, Becomes-refl (table s))
  exit_live-Done (child ∷ rest) reason (w, k) h = elim (Option-cases (get k child)) [
    | inl e ↦ rw (exit_live, e) (exit_live-Done rest reason (w, k) h)
    | inr (p, e) ↦ elim (Bool-cases (is_zombie p.state)) [
      | inl f ↦ rw (exit_live, e, f) (exit_live-Done rest reason (w, k) h)
      | inr f ↦
          rw (exit_live, e, f)
            (Done-bind (exit child reason k) _ k.processes
              (ends.live_process child reason k p e f h)
              (λ t b.
                exit_live-Done rest reason (extend w t.0, t.1) (omega (arith, Becomes-weigh b))))
    ]
  ]

  -- `signal` returns, whatever it decides.
  abbrev pub SignalDone : Option (Option WakeList × Kernel) → List Process → Type 0
  SignalDone o ps = (r : Option WakeList × Kernel) × (o ≡ some r) × Becomes ps r.1.processes

  pub signal-Done :
      (pid status : ℕ) (current : Option ℕ) (k : Kernel)
      → 2 * weigh k.processes + 1 < n
      → SignalDone (signal exit pid status current k) k.processes
  unfolding signal
  signal-Done pid status current k h =
      let l = update pid (λ p. discard_pending_signal_interactions p status) k in
      let b = discard-Becomes pid status k in
      elim (Option-cases (get l pid)) [
        | inl e ↦ rw (signal, e) ((none, k), refl, Becomes-refl k.processes)
        | inr (p, e) ↦ elim (Bool-cases (is_ignored_signal p status)) [
          | inl f ↦ rw (signal, e, f) (_, refl, b)
          | inr f ↦ elim (Bool-cases (should_queue_signal p status current)) [
            | inl g ↦
                rw (signal, e, f, g) (_, refl, Becomes-trans b (queue_on-Becomes pid status p l e))
            | inr g ↦ elim (Option-cases (stop_signal_from_status status)) [
              | inr (m, i) ↦
                  rw (signal, e, f, g, i) (_, refl, Becomes-trans b (stop_process-Becomes pid m l))
              | inl i ↦
                  rw (signal, e, f, g, i)
                    (let (t, j, c) =
                        ends.any_process pid (reason_of status) l
                          (omega (arith, Becomes-weigh b)) in
                      (
                        (some t.0, t.1),
                        ap (λ o. o >>= λ s. some (some s.0, s.1)) j,
                        Becomes-trans b c,
                      ))
            ]
          ]
        ]
      ]

  SignalDone-bind :
      (o : Option (Option WakeList × Kernel)) (g : Option WakeList × Kernel → Option Waking)
      (ps : List Process)
      → SignalDone o ps
      → ((r : Option WakeList × Kernel) → Becomes ps r.1.processes → Done (g r) r.1.processes)
      → Done (o >>= g) ps
  SignalDone-bind o g ps (r, e, b) h =
      let (u, f, c) = h r b in (u, ap (λ o. o >>= g) e ∙ f, Becomes-trans b c)

  -- The member is continued first if the signal is SIGCONT.
  abbrev continued_first : ℕ → Signal → Waking → Waking
  continued_first pid sig (w, k) =
      if is_cont sig
      then (extend_some w (continue_process pid k).0, (continue_process pid k).1)
      else (w, k)

  continued-Becomes :
      (pid : ℕ) (sig : Signal) (s : Waking) → Becomes (table s) (table (continued_first pid sig s))
  continued-Becomes pid sig (w, k) = elim (Bool-cases (is_cont sig)) [
    | inl e ↦ rw e (continue_process-Becomes pid k)
    | inr e ↦ rw e (Becomes-refl k.processes)
  ]

  signal_each-Done :
      (pids : List ℕ) (sig : Signal) (s : Waking)
      → 2 * weigh (table s) + 1 < n
      → Done (signal_each exit pids sig s) (table s)
  unfolding signal_each
  signal_each-Done [] sig s h = (s, refl, Becomes-refl (table s))
  signal_each-Done (pid ∷ rest) sig (w, k) h =
      let m = continued_first pid sig (w, k) in
      let b = continued-Becomes pid sig (w, k) in
      let (t, e, c) =
        SignalDone-bind (signal exit pid (default_status sig) m.1.current m.1)
          (λ r. signal_each exit rest sig (extend_some m.0 r.0, r.1)) (table m)
          (signal-Done pid (default_status sig) m.1.current m.1 (omega (arith, Becomes-weigh b)))
          (λ r c.
            signal_each-Done rest sig (extend_some m.0 r.0, r.1)
              (omega (arith, Becomes-weigh b, Becomes-weigh c))) in
      (t, e, Becomes-trans b c)

  pub notify-Done :
      (groups : List ℕ) (s : Waking)
      → 2 * weigh (table s) + 1 < n
      → Done (notify_orphaned exit groups s) (table s)
  unfolding notify_orphaned
  notify-Done [] s h = (s, refl, Becomes-refl (table s))
  notify-Done (g ∷ groups) s h = elim (Bool-cases (hangs_up g s.1)) [
    | inr f ↦ rw (notify_orphaned, f) (notify-Done groups s h)
    | inl f ↦
        rw (notify_orphaned, f)
          (Done-bind (signal_process_group exit g hup s) _ (table s)
            (signal_each-Done (members_of g (table s)) hup s h)
            (λ t b.
              Done-bind (signal_process_group exit g cont t) _ (table t)
                (signal_each-Done (members_of g (table t)) cont t (omega (arith, Becomes-weigh b)))
                (λ u c. notify-Done groups u (omega (arith, Becomes-weigh b, Becomes-weigh c)))))
  ]

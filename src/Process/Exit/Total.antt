-- ===== src/Process/Exit/Total.antt =====
-- `exit_with_reason` returns, and what is left of the process and its children when it has.
use ristux.Common.{
  ℕ, zero, suc, ◌*◌, ◌<◌, ◌≡◌, ◌≢◌, ◌∙◌, refl, ap, false, ◌==◌, Bool-cases, Option-cases, ◌⊎◌, inl,
  inr, Option, some, List, [], ◌∷◌, length, ==_iff, arith,
}
use ristux.Process.{Process, Kernel, ExitReason, is_zombie, init_pid}
use ristux.Process.Table.{
  modify, get, Waking, child_exited, close_held, reap, wake_each, wake_parent, sigchld_parent,
}
use ristux.Process.Becomes.{
  Evolves, Becomes, Becomes-refl, Becomes-trans, modify-Becomes, modify-weigh, weigh, weight,
  Becomes-weigh,
}
use ristux.Process.Becomes.Steps.{
  table, reap-Becomes, wake_each-Becomes, wake_parent-Becomes, sigchld_parent-Becomes,
}
use ristux.Process.Exit.{
  Spaces, ◌>>=◌, buried, bury, tid_wake, notify_orphaned, adopt_from, new_parent,
  same_space_children, reap_zombies, exit_and_reap_same_space_children, reparent_children_to_init,
  settle, exit_with_reason,
}
use ristux.Process.Exit.Ends.{Done, Ends, exit_live-Done, notify-Done}
use ristux.Process.Exit.Adoption.{new_parent_adopted, adopt_from-Adopting}
use ristux.Process.Exit.Children.{NoChild, adopt_from-NoChild, Becomes-NoChild}

pub bury-processes :
    (pid : ℕ) (reason : ExitReason) (p : Process) (k : Kernel)
    → (bury pid reason p k).processes ≡ modify pid (buried reason) k.processes
unfolding bury close_held
bury-processes pid reason p k = ground arith

buried-Evolves : (reason : ExitReason) (p : Process) → Evolves p (buried reason p)
buried-Evolves reason p = record { same_pid = refl; still_dead = λ h. refl; parents = inl refl }

pub bury-Becomes :
    (pid : ℕ) (reason : ExitReason) (p : Process) (k : Kernel)
    → Becomes k.processes (bury pid reason p k).processes
bury-Becomes pid reason p k =
    rw (bury-processes pid reason p k)
      (modify-Becomes pid (buried reason) k.processes (λ q h. buried-Evolves reason q))

buried_lighter :
    (reason : ExitReason) (p : Process)
    → is_zombie p.state ≡ false
    → weight (buried reason p) < weight p
unfolding weight
buried_lighter reason p f = ground (arith, f)

bury-weigh :
    (pid : ℕ) (reason : ExitReason) (p : Process) (k : Kernel)
    → get k pid ≡ some p
    → is_zombie p.state ≡ false
    → weigh (bury pid reason p k).processes < weigh k.processes
bury-weigh pid reason p k e f =
    rw (bury-processes pid reason p k)
      (modify-weigh pid (buried reason) k.processes p e (buried_lighter reason p f))

pub reap_zombies-Becomes :
    (children : List ℕ) (k : Kernel) → Becomes k.processes (reap_zombies children k).processes
unfolding reap_zombies
reap_zombies-Becomes [] k = Becomes-refl k.processes
reap_zombies-Becomes (child ∷ rest) k = elim (Option-cases (get k child)) [
  | inl e ↦ rw (reap_zombies, e) (reap_zombies-Becomes rest k)
  | inr (p, e) ↦ elim (Bool-cases (is_zombie p.state)) [
    | inr f ↦ rw (reap_zombies, e, f) (reap_zombies-Becomes rest k)
    | inl f ↦
        rw (reap_zombies, e, f)
          (Becomes-trans (reap-Becomes child k) (reap_zombies-Becomes rest (reap child k)))
  ]
]

-- What is true of the children when `pid` has gone, unless it was init.
abbrev pub Orphaned : ℕ → List Process → Type 0
Orphaned pid ps = (pid ≡ init_pid) ⊎ NoChild pid ps

Becomes-Orphaned :
    (pid : ℕ) {ps qs : List Process} → Becomes ps qs → Orphaned pid ps → Orphaned pid qs
Becomes-Orphaned pid b (inl e) = inl e
Becomes-Orphaned pid b (inr h) = elim (Bool-cases (pid == init_pid)) [
  | inl e ↦ inl ((==_iff pid init_pid).0 e)
  | inr e ↦ inr (Becomes-NoChild pid (λ f. absurd (ground (arith, e, f))) b h)
]

abbrev pub Left : ℕ → Option Waking → List Process → Type 0
Left pid o ps = (t : Waking) × (o ≡ some t) × Becomes ps (table t) × Orphaned pid (table t)

bound : (o : Option Waking) (g : Waking → Option Waking) (t : Waking) → o ≡ some t → (o >>= g) ≡ g t
bound o g t e = ap (λ o. o >>= g) e

module _ {n : ℕ} {exit : ℕ → ExitReason → Kernel → Option Waking} (ends : Ends n exit) where
  exit_and_reap-Done :
      (parent space : ℕ) (reason : ExitReason) (s : Waking)
      → 2 * weigh (table s) < n
      → Done (exit_and_reap_same_space_children exit parent space reason s) (table s)
  unfolding exit_and_reap_same_space_children
  exit_and_reap-Done parent space reason s h =
      let children = same_space_children parent space (table s) in
      let (t, e, b) = exit_live-Done ends children reason s h in
      (
        (t.0, reap_zombies children t.1),
        ap (λ o. o >>= λ t. some (t.0, reap_zombies children t.1)) e,
        Becomes-trans b (reap_zombies-Becomes children t.1),
      )

  -- The groups that were noted are told: there is none, or the table has become lighter.
  told :
      (groups : List ℕ) (s t : Waking)
      → 2 * weigh (table s) < n
      → (groups ≡ []) ⊎ (weigh (table t) < weigh (table s))
      → Done (notify_orphaned exit groups t) (table t)
  unfolding notify_orphaned
  told groups s t h (inl e) = rw e (t, refl, Becomes-refl (table t))
  told groups s t h (inr l) = notify-Done ends groups t (omega (arith, h, l))

  reparent-Left :
      (pid : ℕ) (s : Waking)
      → 2 * weigh (table s) < n
      → Left pid (reparent_children_to_init exit pid s) (table s)
  unfolding reparent_children_to_init
  reparent-Left pid s h = elim (Bool-cases (pid == init_pid)) [
    | inl e ↦ rw e (s, refl, Becomes-refl (table s), inl ((==_iff pid init_pid).0 e))
    | inr e ↦ rw e (
        let ne : pid ≢ init_pid = λ f. absurd (ground (arith, e, f)) in
        let ok = new_parent_adopted s.1 in
        let a = adopt_from (length (table s)) pid (new_parent s.1) 0 ([], s) in
        let (b, w) =
          adopt_from-Adopting (length (table s)) pid (new_parent s.1) 0 (table s) ([], s) ne ok
            (Becomes-refl (table s), inl refl) in
        let (t, f, c) = told a.0 s a.1 h w in
        (
          t,
          f,
          Becomes-trans b c,
          inr (Becomes-NoChild pid ne c (adopt_from-NoChild pid (new_parent s.1) s ne ok)),
        ))
  ]

  settle-Left :
      (pid : ℕ) (reason : ExitReason) (p : Process) (s : Waking)
      → 2 * weigh (table s) < n
      → Left pid (settle exit pid reason p s) (table s)
  unfolding settle
  settle-Left pid reason p s h =
      let (t, e, b) = exit_and_reap-Done pid p.address_space reason s h in
      let (u, f, c, z) = reparent-Left pid t (omega (arith, h, Becomes-weigh b)) in
      let v = wake_each p.waiters pid u in
      let d = Becomes-trans (wake_each-Becomes p.waiters pid u) (
        Becomes-trans (sigchld_parent-Becomes p.parent child_exited v.1)
          (wake_parent-Becomes p.parent pid (v.0, sigchld_parent p.parent child_exited v.1))) in
      (
        wake_parent p.parent pid (v.0, sigchld_parent p.parent child_exited v.1),
        bound (exit_and_reap_same_space_children exit pid p.address_space reason s) _ t e
            ∙ bound (reparent_children_to_init exit pid t) _ u f,
        Becomes-trans b (Becomes-trans c d),
        Becomes-Orphaned pid d z,
      )

pub exits-Left :
    (env : Spaces) {n : ℕ} (ends : Ends n (exit_with_reason env n)) (pid : ℕ) (reason : ExitReason)
    (p : Process) (k : Kernel)
    → get k pid ≡ some p
    → 2 * weigh (bury pid reason p k).processes < n
    → Left pid (exit_with_reason env (suc n) pid reason k) (bury pid reason p k).processes
unfolding exit_with_reason
exits-Left env {n} ends pid reason p k e h =
    rw (exit_with_reason, e) (settle-Left ends pid reason p (tid_wake env p, bury pid reason p k) h)

exits-Done :
    (env : Spaces) {n : ℕ} (ends : Ends n (exit_with_reason env n)) (pid : ℕ) (reason : ExitReason)
    (p : Process) (k : Kernel)
    → get k pid ≡ some p
    → 2 * weigh (bury pid reason p k).processes < n
    → Done (exit_with_reason env (suc n) pid reason k) k.processes
exits-Done env ends pid reason p k e h =
    let (t, f, b, z) = exits-Left env ends pid reason p k e h in
    (t, f, Becomes-trans (bury-Becomes pid reason p k) b)

pub exit_with_reason-Ends : (env : Spaces) (n : ℕ) → Ends n (exit_with_reason env n)
unfolding exit_with_reason
exit_with_reason-Ends env zero = record {
  any_process = λ pid reason k h. absurd (omega (arith, h));
  live_process = λ pid reason k p e f h. absurd (omega (arith, h));
}
exit_with_reason-Ends env (suc n) = record {
  any_process = λ pid reason k h. elim (Option-cases (get k pid)) [
    | inl e ↦ rw (exit_with_reason, e) (_, refl, Becomes-refl k.processes)
    | inr (p, e) ↦
        exits-Done env (exit_with_reason-Ends env n) pid reason p k e
          (omega (arith, h, Becomes-weigh (bury-Becomes pid reason p k)))
  ];
  live_process = λ pid reason k p e f h.
      exits-Done env (exit_with_reason-Ends env n) pid reason p k e
        (omega (arith, h, bury-weigh pid reason p k e f));
}

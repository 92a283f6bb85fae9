-- ===== src/Process/Exit/After.antt =====
-- The table after the end of a process: what `exit_with_reason` and `signal` of
-- kernel/src/process/mod.rs leave.
use mathlib.Core.Path.{subst}
use mathlib.Core.Option.{some-injective}
use ristux.Common.{
  ℕ, zero, suc, ◌+◌, ◌*◌, ◌≤◌, ◌≡◌, ◌≢◌, ◌∙◌, refl, sym, ap, true, false, not, ◌||◌, ◌==◌,
  Bool-cases, Option-cases, inl, inr, Option, none, some, List, [], ◌∷◌, length, All, ==_iff, arith,
}
use ristux.Process.{Process, Kernel, ExitReason, WakeList, is_zombie, init_pid}
use ristux.Process.Table.{find, modify, get, Waking}
use ristux.Process.Becomes.{
  Becomes, nil, keep, drop, Becomes-trans, found_first, found_later, Becomes-weigh, weigh-le,
}
use ristux.Process.Exit.{Spaces, buried, exit_with_reason, signal}
use ristux.Process.Exit.Ends.{signal-Done}
use ristux.Process.Exit.Children.{NoChild}
use ristux.Process.Exit.Total.{bury-Becomes, bury-processes, exits-Left, exit_with_reason-Ends}

-- Enough fuel for a table of this length.
abbrev pub enough_fuel : List Process → ℕ
enough_fuel ps = 4 * length ps + 2

-- No process number stands twice.
unfoldable pub Distinct : List Process → Type 0
Distinct [] = Unit
Distinct (p ∷ ps) = (find p.pid ps ≡ none) × Distinct ps

-- Only zombies have this number.
abbrev pub Dead : ℕ → List Process → Type 0
Dead pid ps = All (λ p. (not (p.pid == pid) || is_zombie p.state) ≡ true) ps

absent_head :
    (p : Process) (pid : ℕ) (ps : List Process) → find pid (p ∷ ps) ≡ none → (p.pid == pid) ≡ false
absent_head p pid ps h = ground (arith, h)

absent_tail :
    (p : Process) (pid : ℕ) (ps : List Process) → find pid (p ∷ ps) ≡ none → find pid ps ≡ none
absent_tail p pid ps h = ground (arith, h)

absent_cons :
    (p : Process) (pid : ℕ) (ps : List Process)
    → (p.pid == pid) ≡ false
    → find pid ps ≡ none
    → find pid (p ∷ ps) ≡ none
absent_cons p pid ps e h = rw e h

Becomes-absent :
    (pid : ℕ) {ps qs : List Process} → Becomes ps qs → find pid ps ≡ none → find pid qs ≡ none
Becomes-absent pid nil h = refl
Becomes-absent pid (drop {p} {ps} b) h = Becomes-absent pid b (absent_tail p pid ps h)
Becomes-absent pid (keep {p} {q} {ps} {qs} e b) h =
    absent_cons q pid qs (ap (λ n. n == pid) e.same_pid ∙ absent_head p pid ps h)
      (Becomes-absent pid b (absent_tail p pid ps h))

pub Becomes-Distinct : {ps qs : List Process} → Becomes ps qs → Distinct ps → Distinct qs
unfolding Distinct
Becomes-Distinct nil d = tt
Becomes-Distinct (drop b) d = Becomes-Distinct b d.1
Becomes-Distinct (keep {p} {q} {ps} {qs} e b) d = (
  subst (λ n. find n qs ≡ none) (sym e.same_pid) (Becomes-absent p.pid b d.0),
  Becomes-Distinct b d.1,
)

either_dead :
    (p : Process) (pid : ℕ)
    → ((p.pid == pid) ≡ true → is_zombie p.state ≡ true)
    → (not (p.pid == pid) || is_zombie p.state) ≡ true
either_dead p pid h = elim (Bool-cases (p.pid == pid)) [
  | inl e ↦ rw (e, h e) refl
  | inr e ↦ rw e refl
]

dead_if :
    (p : Process) (pid : ℕ)
    → (not (p.pid == pid) || is_zombie p.state) ≡ true
    → (p.pid == pid) ≡ true
    → is_zombie p.state ≡ true
dead_if p pid h e = ground (arith, h, e)

pub Becomes-Dead : (pid : ℕ) {ps qs : List Process} → Becomes ps qs → Dead pid ps → Dead pid qs
Becomes-Dead pid nil h = tt
Becomes-Dead pid (drop b) h = Becomes-Dead pid b h.1
Becomes-Dead pid (keep {p} {q} e b) h = (
  either_dead q pid
      (λ f. e.still_dead (dead_if p pid h.0 (ap (λ n. n == pid) (sym e.same_pid) ∙ f))),
  Becomes-Dead pid b h.1,
)

pub absent-Dead : (pid : ℕ) (ps : List Process) → find pid ps ≡ none → Dead pid ps
absent-Dead pid [] h = tt
absent-Dead pid (p ∷ ps) h = (
  either_dead p pid (λ e. absurd (ground (arith, e, absent_head p pid ps h))),
  absent-Dead pid ps (absent_tail p pid ps h),
)

pub modify-Dead :
    (pid : ℕ) (reason : ExitReason) (ps : List Process)
    → Distinct ps
    → Dead pid (modify pid (buried reason) ps)
unfolding Distinct
modify-Dead pid reason [] d = tt
modify-Dead pid reason (p ∷ ps) d = elim (Bool-cases (p.pid == pid)) [
  | inl e ↦ rw e (
    either_dead (buried reason p) pid (λ f. refl),
    absent-Dead pid ps (subst (λ n. find n ps ≡ none) ((==_iff p.pid pid).0 e) d.0),
  )
  | inr e ↦
      rw e (either_dead p pid (λ f. absurd (ground (arith, e, f))), modify-Dead pid reason ps d.1)
]

-- With fuel above four times the number of processes plus one, `exit_with_reason` returns for every
-- process number, reason and table, and the table it leaves is one that the first may become: the
-- processes keep their numbers and their order, no zombie comes back, and a process that got another
-- parent got init or none.
pub exit_with_reason-returns :
    (env : Spaces) (fuel pid : ℕ) (reason : ExitReason) (k : Kernel)
    → enough_fuel k.processes ≤ fuel
    → (t : Waking) × (exit_with_reason env fuel pid reason k ≡ some t)
      × Becomes k.processes t.1.processes
exit_with_reason-returns env fuel pid reason k h =
    (exit_with_reason-Ends env fuel).any_process pid reason k
      (omega (arith, h, weigh-le k.processes))

-- The end of a process that may not be there.
pub exit_with_reason-Dead :
    (env : Spaces) (fuel pid : ℕ) (reason : ExitReason) (k : Kernel)
    → enough_fuel k.processes ≤ fuel
    → Distinct k.processes
    → (t : Waking) × (exit_with_reason env fuel pid reason k ≡ some t)
      × Becomes k.processes t.1.processes
      × Dead pid t.1.processes
exit_with_reason-Dead env zero pid reason k h d = absurd (omega (arith, h))
exit_with_reason-Dead env (suc n) pid reason k h d = elim (Option-cases (get k pid)) [
  | inl e ↦
      let (t, f, b) = exit_with_reason-returns env (suc n) pid reason k h in
      (t, f, b, Becomes-Dead pid b (absent-Dead pid k.processes e))
  | inr (p, e) ↦
      let b = bury-Becomes pid reason p k in
      let (t, f, c, z) =
        exits-Left env (exit_with_reason-Ends env n) pid reason p k e
          (omega (arith, h, Becomes-weigh b, weigh-le k.processes)) in
      (
        t,
        f,
        Becomes-trans b c,
        Becomes-Dead pid c (
            subst (Dead pid) (sym (bury-processes pid reason p k))
              (modify-Dead pid reason k.processes d)),
      )
]

-- A zombie is dead from the start.
pub found-Dead :
    (q : Process) (ps : List Process)
    → Distinct ps
    → find q.pid ps ≡ some q
    → is_zombie q.state ≡ true
    → Dead q.pid ps
unfolding Distinct
found-Dead q [] d e z = tt
found-Dead q (p ∷ ps) d e z = elim (Bool-cases (p.pid == q.pid)) [
  | inl g ↦
      let same : p ≡ q = some-injective _ _ (sym (found_first p q.pid ps g) ∙ e) in
      (
        either_dead p q.pid (λ h. ap (λ (r : Process). is_zombie r.state) same ∙ z),
        absent-Dead q.pid ps (subst (λ n. find n ps ≡ none) ((==_iff p.pid q.pid).0 g) d.0),
      )
  | inr g ↦ (
    either_dead p q.pid (λ h. absurd (ground (arith, g, h))),
    found-Dead q ps d.1 (sym (found_later p q.pid ps g) ∙ e) z,
  )
]

-- What is left when process `pid` has ended.
pub record IsOver (pid : ℕ) (ps : List Process) : Type 0 where
  pub dead : Dead pid ps
  pub no_child : NoChild pid ps
  pub distinct : Distinct ps

-- With the same fuel, if the process numbers are distinct and the process is there and is not init:
-- when `exit_with_reason` returns, whatever else ended meanwhile, each process of that number is a
-- zombie, no process has it as parent, and the numbers are distinct still.
pub exit_with_reason-IsOver :
    (env : Spaces) (fuel pid : ℕ) (reason : ExitReason) (k : Kernel) (p : Process)
    → enough_fuel k.processes ≤ fuel
    → Distinct k.processes
    → get k pid ≡ some p
    → pid ≢ init_pid
    → (t : Waking) × (exit_with_reason env fuel pid reason k ≡ some t) × IsOver pid t.1.processes
exit_with_reason-IsOver env zero pid reason k p h d e ne = absurd (omega (arith, h))
exit_with_reason-IsOver env (suc n) pid reason k p h d e ne =
    let b = bury-Becomes pid reason p k in
    let (t, f, c, z) =
      exits-Left env (exit_with_reason-Ends env n) pid reason p k e
        (omega (arith, h, Becomes-weigh b, weigh-le k.processes)) in
    (
      t,
      f,
      record {
        dead = Becomes-Dead pid c (
            subst (Dead pid) (sym (bury-processes pid reason p k))
              (modify-Dead pid reason k.processes d));
        no_child = elim z [ inl g ↦ absurd (ne g) | inr g ↦ g ];
        distinct = Becomes-Distinct c (Becomes-Distinct b d);
      },
    )

-- With the same fuel, `ProcessTable::signal` returns for every process number, status and table, and
-- the table it leaves is one that the first may become.
pub signal-returns :
    (env : Spaces) (fuel pid status : ℕ) (current : Option ℕ) (k : Kernel)
    → enough_fuel k.processes ≤ fuel
    → (r : Option WakeList × Kernel) × (signal (exit_with_reason env fuel) pid status current k
        ≡ some r)
      × Becomes k.processes r.1.processes
signal-returns env fuel pid status current k h =
    signal-Done (exit_with_reason-Ends env fuel) pid status current k
      (omega (arith, h, weigh-le k.processes))

-- ===== src/Process/Group/Over.antt =====
-- After `exit_group` no process of the address space is alive.
use ristux.Common.{
  ℕ, ◌≤◌, ◌≡◌, ◌∙◌, refl, sym, ap, true, false, ◌==◌, Bool-cases, inl, inr, if◌then◌else◌, Option,
  some, List, [], ◌∷◌, ◌++◌, length, ==_iff, arith,
}
use mathlib.Core.Option.{some-injective}
use mathlib.Core.Path.{subst}
use ristux.Process.{Process, exited, Kernel, is_zombie, contains, extend, no_wake}
use ristux.Process.Table.{find, get, Waking}
use ristux.Process.Becomes.{
  Becomes, nil, keep, drop, Becomes-refl, Becomes-trans, found_first, found_later,
}
use ristux.Process.Becomes.Steps.{table}
use ristux.Process.Exit.{Spaces, ◌>>=◌, exit_with_reason, reap_zombies}
use ristux.Process.Exit.Total.{reap_zombies-Becomes}
use ristux.Process.Exit.After.{
  enough_fuel, Distinct, Dead, Becomes-Dead, Becomes-Distinct, exit_with_reason-Dead, found-Dead,
}
use ristux.Process.Group.{
  live_members, internal_members, insert_pid, sort_pids, remove_first, move_last, exit_all,
  exit_group,
}

Becomes-length : {ps qs : List Process} → Becomes ps qs → length qs ≤ length ps
Becomes-length nil = omega arith
Becomes-length (drop b) = omega (arith, Becomes-length b)
Becomes-length (keep e b) = omega (arith, Becomes-length b)

-- What has been reached from a table: it returned, and each of these numbers is dead.
record Ended (members : List ℕ) (o : Option Waking) (ps : List Process) : Type 0 where
  after : Waking
  returned : o ≡ some after
  becomes : Becomes ps (table after)
  all_dead : (q : ℕ) → contains members q ≡ true → Dead q (table after)

exit_all-Ended :
    (env : Spaces) (fuel status : ℕ) (members : List ℕ) (s : Waking)
    → enough_fuel (table s) ≤ fuel
    → Distinct (table s)
    → Ended members (exit_all (exit_with_reason env fuel) members status s) (table s)
unfolding exit_all
exit_all-Ended env fuel status [] s h d = record {
  after = s;
  returned = refl;
  becomes = Becomes-refl (table s);
  all_dead = λ q e. absurd (cc e);
}
exit_all-Ended env fuel status (member ∷ rest) (w, k) h d =
    let (t, e, b, dead) = exit_with_reason-Dead env fuel member (exited status) k h d in
    let r =
      exit_all-Ended env fuel status rest (extend w t.0, t.1) (omega (arith, h, Becomes-length b))
        (Becomes-Distinct b d) in
    record {
      after = r.after;
      returned =
          ap (λ o. o >>= λ s. exit_all (exit_with_reason env fuel) rest status (extend w s.0, s.1))
            e
          ∙ r.returned;
      becomes = Becomes-trans b r.becomes;
      all_dead = λ q g. elim (Bool-cases (member == q)) [
        | inl f ↦
            subst (λ m. Dead m (table r.after)) ((==_iff member q).0 f)
              (Becomes-Dead member r.becomes dead)
        | inr f ↦ r.all_dead q (ground (arith, f, g))
      ];
    }

-- The order changes nothing.
contains-insert :
    (pid x : ℕ) (qs : List ℕ) → contains (pid ∷ qs) x ≡ true → contains (insert_pid pid qs) x ≡ true
contains-insert pid x [] h = h
contains-insert pid x (q ∷ qs) h = ground (arith, h, contains-insert pid x qs)

contains-sort : (x : ℕ) (ps : List ℕ) → contains ps x ≡ true → contains (sort_pids ps) x ≡ true
contains-sort x [] h = h
contains-sort x (p ∷ ps) h =
    contains-insert p x (sort_pids ps) (ground (arith, h, contains-sort x ps))

contains-append :
    (qs : List ℕ) (pid x : ℕ)
    → contains (qs ++ (pid ∷ [])) x ≡ (if pid == x then true else contains qs x)
contains-append [] pid x = refl
contains-append (q ∷ qs) pid x = ground (arith, contains-append qs pid x)

contains-remove :
    (pid x : ℕ) (qs : List ℕ)
    → contains qs x ≡ true
    → contains (remove_first pid qs ++ (pid ∷ [])) x ≡ true
contains-remove pid x [] h = cc
contains-remove pid x (q ∷ qs) h = elim (Bool-cases (q == pid)) [
  | inl e ↦ rw e (ground (arith, h, e, contains-append qs pid x))
  | inr e ↦ rw e (ground (arith, h, contains-remove pid x qs))
]

contains-move :
    (pid x : ℕ) (qs : List ℕ) → contains qs x ≡ true → contains (move_last pid qs) x ≡ true
contains-move pid x qs h = elim (Bool-cases (contains qs pid)) [
  | inl e ↦ rw e (contains-remove pid x qs h)
  | inr e ↦ rw e h
]

contains-live :
    (q : Process) (space : ℕ) (ps : List Process)
    → find q.pid ps ≡ some q
    → q.address_space ≡ space
    → is_zombie q.state ≡ false
    → contains (live_members space ps) q.pid ≡ true
contains-live q space [] h e f = cc
contains-live q space (p ∷ ps) h e f = elim (Bool-cases (p.pid == q.pid)) [
  | inl g ↦
      let same : p ≡ q = some-injective _ _ (sym (found_first p q.pid ps g) ∙ h) in
      let mine = ap (λ (r : Process). r.address_space) same ∙ e in
      let alive = ap (λ (r : Process). is_zombie r.state) same ∙ f in ground (arith, g, mine, alive)
  | inr g ↦
      let later = contains-live q space ps (sym (found_later p q.pid ps g) ∙ h) e f in
      ground (arith, later)
]

-- If no process number stands twice, with fuel above four times the number of processes plus one,
-- `exit_group` of a process that is there returns, and then every process that shared the address
-- space of this process, itself included, is a zombie or gone, the numbers are distinct still, and
-- the table is one that the first may become.
pub exit_group-Dead :
    (env : Spaces) (fuel pid status : ℕ) (k : Kernel) (p q : Process)
    → enough_fuel k.processes ≤ fuel
    → Distinct k.processes
    → get k pid ≡ some p
    → get k q.pid ≡ some q
    → q.address_space ≡ p.address_space
    → (t : Waking) × (exit_group env fuel pid status k ≡ some t)
      × Becomes k.processes t.1.processes
      × Distinct t.1.processes
      × Dead q.pid t.1.processes
unfolding exit_group
exit_group-Dead env fuel pid status k p q h d e f g =
    let members = live_members p.address_space k.processes in
    let inner = internal_members members k.processes in
    let r = exit_all-Ended env fuel status (move_last pid (sort_pids members)) (no_wake, k) h d in
    let b = Becomes-trans r.becomes (reap_zombies-Becomes inner r.after.1) in
    (
      (r.after.0, reap_zombies inner r.after.1),
      rw (exit_group, e) (ap (λ o. o >>= λ s. some (s.0, reap_zombies inner s.1)) r.returned),
      b,
      Becomes-Distinct b d,
      elim (Bool-cases (is_zombie q.state)) [
        | inl z ↦ Becomes-Dead q.pid b (found-Dead q k.processes d f z)
        | inr z ↦ Becomes-Dead q.pid (reap_zombies-Becomes inner r.after.1) (
            r.all_dead q.pid (
              contains-move pid q.pid (sort_pids members)
                (contains-sort q.pid members (contains-live q p.address_space k.processes f g z))))
      ],
    )

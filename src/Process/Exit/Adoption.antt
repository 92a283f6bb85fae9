-- ===== src/Process/Exit/Adoption.antt =====
-- `reparent_children_to_init` leaves no child behind, and takes a child away wherever it finds a group.
use ristux.Common.{
  ℕ, zero, suc, ◌<◌, ◌≡◌, ◌≢◌, refl, true, false, ◌&&◌, Bool-cases, Option-cases, ◌⊎◌, inl, inr,
  if◌then◌else◌, Option, none, some, List, [], get_elem?, set, arith,
}
use ristux.Process.{Process, Kernel, is_parent, init_pid}
use ristux.Process.Table.{Waking, wake_waiter_for_child}
use ristux.Process.Becomes.{
  Becomes, Becomes-refl, Becomes-trans, set-Becomes, weigh, weight, Becomes-weigh, set-weigh,
  is_adopted,
}
use ristux.Process.Becomes.Steps.{table, wake_waiter-Becomes}
use ristux.Process.Exit.{adopt, adopt_from, push_group, new_parent, is_waitable}

pub new_parent_adopted : (k : Kernel) → is_adopted (new_parent k) ≡ true
new_parent_adopted k = ground (arith)

child_not_adopted :
    (o : Option ℕ) (old : ℕ) → is_parent o old ≡ true → old ≢ init_pid → is_adopted o ≡ false
child_not_adopted none old h ne = cc
child_not_adopted (some q) old h ne = ground (arith, h, ne)

pub adopted_not_child :
    (o : Option ℕ) (old : ℕ) → is_adopted o ≡ true → old ≢ init_pid → is_parent o old ≡ false
adopted_not_child none old h ne = refl
adopted_not_child (some q) old h ne = ground (arith, h, ne)

adopted_lighter :
    (p : Process) (parent : Option ℕ)
    → is_adopted p.parent ≡ false
    → is_adopted parent ≡ true
    → weight (record p { parent = parent }) < weight p
unfolding weight
adopted_lighter p parent f g = ground (arith, f, g)

-- The child's new entry, and the waking of init.
abbrev pub moved : Option ℕ → ℕ → Process → Waking → Waking
moved parent index p (w, k) =
    (w, record k { processes = set k.processes index (record p { parent = parent }) })

abbrev pub woken_init : Option ℕ → Process → Waking → Waking
woken_init parent p s =
    if is_parent parent init_pid && is_waitable p.state
    then wake_waiter_for_child init_pid p.pid s
    else s

pub adopt-none :
    (old index : ℕ) (parent : Option ℕ) (groups : List ℕ) (s : Waking)
    → get_elem? (table s) index ≡ none
    → adopt old parent index (groups, s) ≡ (groups, s)
unfolding adopt
adopt-none old index parent groups (w, k) e = rw (adopt, e) refl

pub adopt-other :
    (old index : ℕ) (parent : Option ℕ) (groups : List ℕ) (s : Waking) (p : Process)
    → get_elem? (table s) index ≡ some p
    → is_parent p.parent old ≡ false
    → adopt old parent index (groups, s) ≡ (groups, s)
unfolding adopt
adopt-other old index parent groups (w, k) p e f = rw (adopt, e, f) refl

pub adopt-child :
    (old index : ℕ) (parent : Option ℕ) (groups : List ℕ) (s : Waking) (p : Process)
    → get_elem? (table s) index ≡ some p
    → is_parent p.parent old ≡ true
    → adopt old parent index (groups, s)
      ≡ (push_group p.pgrp groups, woken_init parent p (moved parent index p s))
unfolding adopt
adopt-child old index parent groups (w, k) p e f = rw (adopt, e, f) refl

woken_init-Becomes :
    (parent : Option ℕ) (p : Process) (s : Waking)
    → Becomes (table s) (table (woken_init parent p s))
woken_init-Becomes parent p s =
    elim (Bool-cases (is_parent parent init_pid && is_waitable p.state)) [
      | inl e ↦ rw e (wake_waiter-Becomes init_pid p.pid s)
      | inr e ↦ rw e (Becomes-refl (table s))
    ]

-- So far: the table may have become this one, and is lighter if a group was noted.
abbrev pub Adopting : List Process → List ℕ × Waking → Type 0
Adopting ps (groups, s) = Becomes ps (table s) × ((groups ≡ []) ⊎ (weigh (table s) < weigh ps))

adopt-Adopting :
    (old : ℕ) (parent : Option ℕ) (index : ℕ) (ps : List Process) (a : List ℕ × Waking)
    → old ≢ init_pid
    → is_adopted parent ≡ true
    → Adopting ps a
    → Adopting ps (adopt old parent index a)
adopt-Adopting old parent index ps (groups, s) ne ok (b, w) =
    elim (Option-cases (get_elem? (table s) index)) [
      | inl e ↦ rw (adopt-none old index parent groups s e) (b, w)
      | inr (p, e) ↦ elim (Bool-cases (is_parent p.parent old)) [
        | inr f ↦ rw (adopt-other old index parent groups s p e f) (b, w)
        | inl f ↦
            let c = woken_init-Becomes parent p (moved parent index p s) in
            rw (adopt-child old index parent groups s p e f) (
              Becomes-trans b (
                  Becomes-trans
                    (set-Becomes (table s) index p (record p { parent = parent }) e
                      (record { same_pid = refl; still_dead = λ h. h; parents = inr ok }))
                    c),
              inr (
                  omega (
                    arith,
                    Becomes-weigh b,
                    Becomes-weigh c,
                    set-weigh (table s) index p (record p { parent = parent }) e
                        (adopted_lighter p parent (child_not_adopted p.parent old f ne) ok),
                  )),
            )
      ]
    ]

pub adopt_from-Adopting :
    (rounds old : ℕ) (parent : Option ℕ) (index : ℕ) (ps : List Process) (a : List ℕ × Waking)
    → old ≢ init_pid
    → is_adopted parent ≡ true
    → Adopting ps a
    → Adopting ps (adopt_from rounds old parent index a)
unfolding adopt_from
adopt_from-Adopting zero old parent index ps a ne ok h = h
adopt_from-Adopting (suc rounds) old parent index ps a ne ok h =
    adopt_from-Adopting rounds old parent (suc index) ps (adopt old parent index a) ne ok
      (adopt-Adopting old parent index ps a ne ok h)

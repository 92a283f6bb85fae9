-- ===== src/Process/Becomes.antt =====
-- How a process table may change: processes keep their number and order, none comes back from the
-- dead, and a process gets no parent but init.
pub mod Steps
use mathlib.Core.Path.{subst}
use mathlib.Core.Option.{some-injective}
use ristux.Common.{
  ℕ, zero, suc, ◌+◌, ◌*◌, ◌≤◌, ◌<◌, ◌≡◌, ◌∙◌, refl, sym, ap, Bool, true, false, ◌==◌, Bool-cases,
  ◌⊎◌, inl, inr, if◌then◌else◌, Option, none, some, List, [], ◌∷◌, length, get_elem?, set, arith,
}
use ristux.Process.{Process, init_pid, is_zombie}
use ristux.Process.Table.{find, modify, remove_pid}

-- A parent that is init or none.
abbrev pub is_adopted : Option ℕ → Bool
is_adopted none = true
is_adopted (some q) = q == init_pid

pub record Evolves (p q : Process) : Type 0 where
  pub same_pid : q.pid ≡ p.pid
  pub still_dead : is_zombie p.state ≡ true → is_zombie q.state ≡ true
  pub parents : (q.parent ≡ p.parent) ⊎ (is_adopted q.parent ≡ true)

pub data Becomes : List Process → List Process → Type 0 where
  nil : Becomes [] []
  keep :
      {p q : Process} {ps qs : List Process}
      → Evolves p q
      → Becomes ps qs
      → Becomes (p ∷ ps) (q ∷ qs)
  drop : {p : Process} {ps qs : List Process} → Becomes ps qs → Becomes (p ∷ ps) qs

pub Evolves-refl : (p : Process) → Evolves p p
Evolves-refl p = record { same_pid = refl; still_dead = λ h. h; parents = inl refl }

joined :
    {a b c : Option ℕ}
    → (b ≡ a) ⊎ (is_adopted b ≡ true)
    → (c ≡ b) ⊎ (is_adopted c ≡ true)
    → (c ≡ a) ⊎ (is_adopted c ≡ true)
joined x (inr h) = inr h
joined (inl e) (inl f) = inl (f ∙ e)
joined (inr h) (inl f) = inr (ap is_adopted f ∙ h)

pub Evolves-trans : {p q r : Process} → Evolves p q → Evolves q r → Evolves p r
Evolves-trans e f = record {
  same_pid = f.same_pid ∙ e.same_pid;
  still_dead = λ h. f.still_dead (e.still_dead h);
  parents = joined e.parents f.parents;
}

pub Becomes-refl : (ps : List Process) → Becomes ps ps
Becomes-refl [] = nil
Becomes-refl (p ∷ ps) = keep (Evolves-refl p) (Becomes-refl ps)

pub Becomes-trans : {ps qs rs : List Process} → Becomes ps qs → Becomes qs rs → Becomes ps rs
Becomes-trans nil c = c
Becomes-trans (keep e b) (keep f c) = keep (Evolves-trans e f) (Becomes-trans b c)
Becomes-trans (keep e b) (drop c) = drop (Becomes-trans b c)
Becomes-trans (drop b) c = drop (Becomes-trans b c)

pub modify-Becomes :
    (pid : ℕ) (f : Process → Process) (ps : List Process)
    → ((p : Process) → find pid ps ≡ some p → Evolves p (f p))
    → Becomes ps (modify pid f ps)
modify-Becomes pid f [] h = nil
modify-Becomes pid f (p ∷ ps) h = elim (Bool-cases (p.pid == pid)) [
  | inl e ↦ rw e (keep (h p (rw e)) (Becomes-refl ps))
  | inr e ↦ rw e (keep (Evolves-refl p) (modify-Becomes pid f ps (λ q g. h q (rw e g))))
]

pub remove_pid-Becomes : (pid : ℕ) (ps : List Process) → Becomes ps (remove_pid pid ps)
remove_pid-Becomes pid [] = nil
remove_pid-Becomes pid (p ∷ ps) = elim (Bool-cases (p.pid == pid)) [
  | inl e ↦ rw e (drop (Becomes-refl ps))
  | inr e ↦ rw e (keep (Evolves-refl p) (remove_pid-Becomes pid ps))
]

pub set-Becomes :
    (ps : List Process) (i : ℕ) (p q : Process)
    → get_elem? ps i ≡ some p
    → Evolves p q
    → Becomes ps (set ps i q)
set-Becomes [] i p q h e = nil
set-Becomes (r ∷ ps) zero p q h e =
    keep (subst (λ s. Evolves s q) (some-injective _ _ (sym h)) e) (Becomes-refl ps)
set-Becomes (r ∷ ps) (suc i) p q h e = keep (Evolves-refl r) (set-Becomes ps i p q h e)

pub found_first :
    (p : Process) (pid : ℕ) (ps : List Process) → (p.pid == pid) ≡ true → find pid (p ∷ ps) ≡ some p
found_first p pid ps e = rw e refl

pub found_later :
    (p : Process) (pid : ℕ) (ps : List Process)
    → (p.pid == pid) ≡ false
    → find pid (p ∷ ps) ≡ find pid ps
found_later p pid ps e = rw e refl

pub find-modify :
    (pid : ℕ) (f : Process → Process) (ps : List Process) (p : Process)
    → ((q : Process) → (f q).pid ≡ q.pid)
    → find pid ps ≡ some p
    → find pid (modify pid f ps) ≡ some (f p)
find-modify pid f [] p same h = cc
find-modify pid f (q ∷ ps) p same h = elim (Bool-cases (q.pid == pid)) [
  | inl e ↦ rw e (
      found_first (f q) pid ps (ap (λ n. n == pid) (same q) ∙ e)
      ∙ ap some (ap f (some-injective _ _ (sym (found_first q pid ps e) ∙ h))))
  | inr e ↦ rw (e, e) (find-modify pid f ps p same (sym (found_later q pid ps e) ∙ h))
]

-- What still can be ended or adopted.
unfoldable pub weight : Process → ℕ
weight p = (if is_zombie p.state then 0 else 1) + (if is_adopted p.parent then 0 else 1)

unfoldable pub weigh : List Process → ℕ
weigh [] = 0
weigh (p ∷ ps) = weight p + weigh ps

adopted_parent :
    {a b : Option ℕ}
    → (b ≡ a) ⊎ (is_adopted b ≡ true)
    → (if is_adopted b then 0 else 1) ≤ (if is_adopted a then 0 else 1)
adopted_parent {a} (inl e) = rw e (omega arith)
adopted_parent (inr h) = rw h (omega arith)

dead_state : (a b : Bool) → (a ≡ true → b ≡ true) → (if b then 0 else 1) ≤ (if a then 0 else 1)
dead_state true b h = rw (h refl) (omega arith)
dead_state false true h = omega arith
dead_state false false h = omega arith

pub Evolves-weight : {p q : Process} → Evolves p q → weight q ≤ weight p
unfolding weight
Evolves-weight {p} {q} e = omega (
  arith,
  dead_state (is_zombie p.state) (is_zombie q.state) e.still_dead,
  adopted_parent e.parents,
)

pub Becomes-weigh : {ps qs : List Process} → Becomes ps qs → weigh qs ≤ weigh ps
unfolding weigh
Becomes-weigh nil = omega arith
Becomes-weigh (keep e b) = omega (arith, Evolves-weight e, Becomes-weigh b)
Becomes-weigh (drop b) = omega (arith, Becomes-weigh b)

pub weigh-le : (ps : List Process) → weigh ps ≤ 2 * length ps
unfolding weigh weight
weigh-le [] = omega arith
weigh-le (p ∷ ps) = ground (arith, weigh-le ps)

-- The end of a live process, and the adoption of another's child, make the table lighter.
pub modify-weigh :
    (pid : ℕ) (f : Process → Process) (ps : List Process) (p : Process)
    → find pid ps ≡ some p
    → weight (f p) < weight p
    → weigh (modify pid f ps) < weigh ps
unfolding weigh
modify-weigh pid f [] p h l = cc
modify-weigh pid f (q ∷ ps) p h l = ground (arith, modify-weigh pid f ps p)

pub set-weigh :
    (ps : List Process) (i : ℕ) (p q : Process)
    → get_elem? ps i ≡ some p
    → weight q < weight p
    → weigh (set ps i q) < weigh ps
unfolding weigh
set-weigh [] i p q h l = cc
set-weigh (r ∷ ps) zero p q h l = ground (arith, ap weight (some-injective _ _ h))
set-weigh (r ∷ ps) (suc i) p q h l = omega (arith, set-weigh ps i p q h l)

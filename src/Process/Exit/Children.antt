-- ===== src/Process/Exit/Children.antt =====
-- After `reparent_children_to_init` nobody has the old parent, and this stays so.
use mathlib.Core.Path.{subst}
use mathlib.Core.Option.{some-injective}
use ristux.Common.{
  ℕ, zero, suc, ◌+◌, ◌<◌, ◌≡◌, ◌≢◌, ◌∙◌, refl, sym, ap, true, false, ◌&&◌, ◌==◌, Bool-cases,
  Option-cases, inl, inr, Option, none, some, List, [], ◌∷◌, map, length, get_elem?, set,
  get_elem?-set_self, get_elem?-set_ne, All, ==_iff, length-set, arith,
}
use ristux.Process.{Process, ready, is_parent, init_pid}
use ristux.Process.Table.{modify, get, with_state, Waking, wake_waiter_for_child, waits_for}
use ristux.Process.Becomes.{Becomes, is_adopted, nil, keep, drop}
use ristux.Process.Becomes.Steps.{table}
use ristux.Process.Exit.Adoption.{
  adopted_not_child, adopt-none, adopt-other, adopt-child, moved, woken_init,
}
use ristux.Process.Exit.{adopt, adopt_from, is_waitable}

-- Nobody has this parent any more.
abbrev pub NoChild : ℕ → List Process → Type 0
NoChild old ps = All (λ p. is_parent p.parent old ≡ false) ps

abbrev parents : List Process → List (Option ℕ)
parents ps = map (λ p. p.parent) ps

-- No child among the first `i`.
Clean : ℕ → ℕ → List (Option ℕ) → Type 0
Clean old i xs = (j : ℕ) (o : Option ℕ) → j < i → get_elem? xs j ≡ some o → is_parent o old ≡ false

get_elem?-parents :
    (ps : List Process) (i : ℕ) (p : Process)
    → get_elem? ps i ≡ some p
    → get_elem? (parents ps) i ≡ some p.parent
get_elem?-parents [] i p h = cc
get_elem?-parents (q ∷ ps) zero p h = ap (λ r. some r.parent) (some-injective _ _ h)
get_elem?-parents (q ∷ ps) (suc i) p h = get_elem?-parents ps i p h

get_elem?-parents_none :
    (ps : List Process) (i : ℕ) → get_elem? ps i ≡ none → get_elem? (parents ps) i ≡ none
get_elem?-parents_none [] i h = refl
get_elem?-parents_none (q ∷ ps) zero h = cc
get_elem?-parents_none (q ∷ ps) (suc i) h = get_elem?-parents_none ps i h

parents-set :
    (ps : List Process) (i : ℕ) (q : Process) → parents (set ps i q) ≡ set (parents ps) i q.parent
parents-set [] i q = refl
parents-set (p ∷ ps) zero q = refl
parents-set (p ∷ ps) (suc i) q = ap (λ t. p.parent ∷ t) (parents-set ps i q)

parents-modify :
    (pid : ℕ) (ps : List Process) → parents (modify pid (with_state ready) ps) ≡ parents ps
parents-modify pid [] = refl
parents-modify pid (p ∷ ps) = elim (Bool-cases (p.pid == pid)) [
  | inl e ↦ rw e refl
  | inr e ↦ rw e (ap (λ t. p.parent ∷ t) (parents-modify pid ps))
]

parents-wake :
    (waiter child : ℕ) (s : Waking)
    → parents (table (wake_waiter_for_child waiter child s)) ≡ parents (table s)
unfolding wake_waiter_for_child
parents-wake waiter child (w, k) = elim (Option-cases (get k waiter)) [
  | inl e ↦ rw (e, wake_waiter_for_child) refl
  | inr (p, e) ↦ elim (Bool-cases (waits_for p.state child)) [
    | inr f ↦ rw (e, wake_waiter_for_child, f) refl
    | inl f ↦ rw (e, wake_waiter_for_child, f) (parents-modify waiter k.processes)
  ]
]

parents-woken_init :
    (parent : Option ℕ) (p : Process) (s : Waking)
    → parents (table (woken_init parent p s)) ≡ parents (table s)
parents-woken_init parent p s =
    elim (Bool-cases (is_parent parent init_pid && is_waitable p.state)) [
      | inl e ↦ rw e (parents-wake init_pid p.pid s)
      | inr e ↦ rw e refl
    ]

-- A step of `Clean`, from what stands at the index.
Clean-suc :
    (old i : ℕ) (xs : List (Option ℕ))
    → Clean old i xs
    → ((o : Option ℕ) → get_elem? xs i ≡ some o → is_parent o old ≡ false)
    → Clean old (suc i) xs
unfolding Clean
Clean-suc old i xs c h j o l e = elim (Bool-cases (j == i)) [
  | inl f ↦ h o (ap (get_elem? xs) (sym ((==_iff j i).0 f)) ∙ e)
  | inr f ↦ c j o (ground (arith, f, l)) e
]

Clean-set :
    (old i : ℕ) (parent : Option ℕ) (xs : List (Option ℕ))
    → Clean old i xs
    → Clean old i (set xs i parent)
unfolding Clean
Clean-set old i parent xs c j o l e =
    c j o l (sym (get_elem?-set_ne xs i j parent (λ f. absurd (omega (arith, f)))) ∙ e)

set_at :
    (xs : List (Option ℕ)) (i : ℕ) (x y o : Option ℕ)
    → get_elem? xs i ≡ some x
    → get_elem? (set xs i y) i ≡ some o
    → o ≡ y
set_at xs i x y o h e = some-injective _ _ (sym e ∙ get_elem?-set_self xs i y x h)

adopt-Clean :
    (old index : ℕ) (parent : Option ℕ) (groups : List ℕ) (s : Waking)
    → old ≢ init_pid
    → is_adopted parent ≡ true
    → Clean old index (parents (table s))
    → Clean old (suc index) (parents (table (adopt old parent index (groups, s)).1))
adopt-Clean old index parent groups s ne ok c = elim (Option-cases (get_elem? (table s) index)) [
  | inl e ↦ rw (adopt-none old index parent groups s e) (
      Clean-suc old index (parents (table s)) c
        (λ o g. cc (get_elem?-parents_none (table s) index e, g)))
  | inr (p, e) ↦ elim (Bool-cases (is_parent p.parent old)) [
    | inr f ↦ rw (adopt-other old index parent groups s p e f) (
        Clean-suc old index (parents (table s)) c (λ o g.
          ap (λ o. is_parent o old)
            (some-injective _ _ (sym g ∙ get_elem?-parents (table s) index p e))
          ∙ f))
    | inl f ↦ rw (adopt-child old index parent groups s p e f) (
        subst (Clean old (suc index))
          (sym (
            parents-woken_init parent p (moved parent index p s)
            ∙ parents-set (table s) index (record p { parent = parent })))
          (Clean-suc old index (set (parents (table s)) index parent)
            (Clean-set old index parent (parents (table s)) c)
            (λ o g.
              ap (λ o. is_parent o old)
                (set_at (parents (table s)) index p.parent parent o
                  (get_elem?-parents (table s) index p e) g)
              ∙ adopted_not_child parent old ok ne)))
  ]
]

length-adopt :
    (old index : ℕ) (parent : Option ℕ) (groups : List ℕ) (s : Waking)
    → length (parents (table (adopt old parent index (groups, s)).1)) ≡ length (parents (table s))
length-adopt old index parent groups s = elim (Option-cases (get_elem? (table s) index)) [
  | inl e ↦ rw (adopt-none old index parent groups s e) refl
  | inr (p, e) ↦ elim (Bool-cases (is_parent p.parent old)) [
    | inr f ↦ rw (adopt-other old index parent groups s p e f) refl
    | inl f ↦ rw (adopt-child old index parent groups s p e f) (
        ap length (
          parents-woken_init parent p (moved parent index p s)
          ∙ parents-set (table s) index (record p { parent = parent }))
        ∙ length-set (parents (table s)) index parent)
  ]
]

add_none : (n : ℕ) → n ≡ n + 0
add_none n = omega arith

length-parents : (ps : List Process) → 0 + length ps ≡ length (parents ps)
length-parents [] = omega arith
length-parents (p ∷ ps) = omega (arith, length-parents ps)

adopt_from-Clean :
    (rounds old index : ℕ) (parent : Option ℕ) (a : List ℕ × Waking)
    → old ≢ init_pid
    → is_adopted parent ≡ true
    → index + rounds ≡ length (parents (table a.1))
    → Clean old index (parents (table a.1))
    → Clean old
        (length (parents (table (adopt_from rounds old parent index a).1)))
        (parents (table (adopt_from rounds old parent index a).1))
unfolding adopt_from
adopt_from-Clean zero old index parent a ne ok l c =
    subst (λ n. Clean old n (parents (table a.1))) (add_none index ∙ l) c
adopt_from-Clean (suc rounds) old index parent (groups, s) ne ok l c =
    adopt_from-Clean rounds old (suc index) parent (adopt old parent index (groups, s)) ne ok
      (omega (arith, l, length-adopt old index parent groups s))
      (adopt-Clean old index parent groups s ne ok c)

NoChild-Clean :
    (old : ℕ) (ps : List Process) → Clean old (length (parents ps)) (parents ps) → NoChild old ps
unfolding Clean
NoChild-Clean old [] c = tt
NoChild-Clean old (p ∷ ps) c = (
  c 0 p.parent (omega arith) refl,
  NoChild-Clean old ps (λ j o l e. c (suc j) o (omega (arith, l)) e),
)

-- The loop over the whole table takes every child away.
pub adopt_from-NoChild :
    (old : ℕ) (parent : Option ℕ) (s : Waking)
    → old ≢ init_pid
    → is_adopted parent ≡ true
    → NoChild old (table (adopt_from (length (table s)) old parent 0 ([], s)).1)
unfolding Clean
adopt_from-NoChild old parent s ne ok = NoChild-Clean old _ (
    adopt_from-Clean (length (table s)) old 0 parent ([], s) ne ok (length-parents (table s))
      (λ j o l e. absurd (omega (arith, l))))

pub Becomes-NoChild :
    (old : ℕ) {ps qs : List Process}
    → old ≢ init_pid
    → Becomes ps qs
    → NoChild old ps
    → NoChild old qs
Becomes-NoChild old ne nil h = tt
Becomes-NoChild old ne (drop b) h = Becomes-NoChild old ne b h.1
Becomes-NoChild old ne (keep {q = q} e b) h = (
  elim e.parents [
    | inl f ↦ ap (λ o. is_parent o old) f ∙ h.0
    | inr f ↦ adopted_not_child q.parent old f ne
  ],
  Becomes-NoChild old ne b h.1,
)

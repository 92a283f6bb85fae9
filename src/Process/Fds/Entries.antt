-- ===== src/Process/Fds/Entries.antt =====
-- Descriptor tables with each number once and below `MAX_FDS`: no more entries than numbers.
use mathlib.Core.Path.{subst}
use ristux.Common.{
  ℕ, zero, suc, ◌+◌, ◌≤◌, ◌<◌, ◌≡◌, ◌≢◌, ◌∙◌, refl, false, ◌==◌, ltb, Bool-cases, inl, inr,
  if◌then◌else◌, none, some, List, [], ◌∷◌, ◌++◌, length, All, All-append, ==_iff, arith,
}
use ristux.Process.{FdEntry, max_fds}
use ristux.Process.Fds.{is_open, entry_at}

unfoldable pub Unique : List FdEntry → Type 0
Unique [] = Unit
Unique (e ∷ es) = (entry_at e.user_fd es ≡ none) × Unique es

pub record IsFdTable (fds : List FdEntry) : Type 0 where
  pub unique : Unique fds
  pub bounded : All (λ (e : FdEntry). e.user_fd < max_fds) fds

below : ℕ → List FdEntry → ℕ
below n [] = 0
below n (e ∷ es) = (if ltb e.user_fd n then 1 else 0) + below n es

equal : ℕ → List FdEntry → ℕ
equal n [] = 0
equal n (e ∷ es) = (if e.user_fd == n then 1 else 0) + equal n es

below-suc : (n : ℕ) (es : List FdEntry) → below (suc n) es ≡ below n es + equal n es
unfolding below equal
below-suc n [] = refl
below-suc n (e ∷ es) = ground (arith, below-suc n es)

below-zero : (es : List FdEntry) → below 0 es ≡ 0
unfolding below
below-zero [] = refl
below-zero (e ∷ es) = ground (arith, below-zero es)

equal-none : (n : ℕ) (es : List FdEntry) → entry_at n es ≡ none → equal n es ≡ 0
unfolding equal
equal-none n [] h = refl
equal-none n (e ∷ es) h = elim (Bool-cases (e.user_fd == n)) [
  | inl f ↦ absurd (ground (arith, h, f))
  | inr f ↦ rw f (omega (arith, equal-none n es (ground (arith, h, f))))
]

equal-le : (n : ℕ) (es : List FdEntry) → Unique es → equal n es ≤ 1
unfolding equal Unique
equal-le n [] u = omega arith
equal-le n (e ∷ es) u = elim (Bool-cases (e.user_fd == n)) [
  | inr f ↦ rw f (omega (arith, equal-le n es u.1))
  | inl f ↦
      let absent : entry_at n es ≡ none =
        subst (λ m. entry_at m es ≡ none) ((==_iff e.user_fd n).0 f) u.0 in
      rw f (omega (arith, equal-none n es absent))
]

below-le : (n : ℕ) (es : List FdEntry) → Unique es → below n es ≤ n
below-le zero es u = omega (arith, below-zero es)
below-le (suc n) es u = omega (arith, below-suc n es, equal-le n es u, below-le n es u)

below-length :
    (es : List FdEntry)
    → All (λ (e : FdEntry). e.user_fd < max_fds) es
    → below max_fds es ≡ length es
unfolding below
below-length [] h = refl
below-length (e ∷ es) h = ground (arith, h.0, below-length es h.1)

-- There are as many entries as numbers at most.
pub length-le : (fds : List FdEntry) → IsFdTable fds → length fds ≤ max_fds
length-le fds t = omega (arith, below-length fds t.bounded, below-le max_fds fds t.unique)

pub is_open-none : (n : ℕ) (fds : List FdEntry) → is_open n fds ≡ false → entry_at n fds ≡ none
is_open-none n [] h = refl
is_open-none n (e ∷ es) h = ground (arith, h, is_open-none n es)

pub entry_at-append_new :
    (new : FdEntry) (fds : List FdEntry)
    → entry_at new.user_fd fds ≡ none
    → entry_at new.user_fd (fds ++ (new ∷ [])) ≡ some new
entry_at-append_new new [] h = ground arith
entry_at-append_new new (e ∷ es) h = ground (arith, h, entry_at-append_new new es)

pub entry_at-append_other :
    (new : FdEntry) (fds : List FdEntry) (m : ℕ)
    → m ≢ new.user_fd
    → entry_at m (fds ++ (new ∷ [])) ≡ entry_at m fds
entry_at-append_other new [] m ne = ground (arith, ne)
entry_at-append_other new (e ∷ es) m ne = ground (arith, entry_at-append_other new es m ne)

pub append-Unique :
    (new : FdEntry) (fds : List FdEntry)
    → Unique fds
    → entry_at new.user_fd fds ≡ none
    → Unique (fds ++ (new ∷ []))
unfolding Unique
append-Unique new [] u h = (refl, tt)
append-Unique new (e ∷ es) u h = (
  entry_at-append_other new es e.user_fd (λ g. absurd (ground (arith, h, g))) ∙ u.0,
  append-Unique new es u.1 (ground (arith, h)),
)

pub append-IsFdTable :
    (new : FdEntry) (fds : List FdEntry)
    → IsFdTable fds
    → entry_at new.user_fd fds ≡ none
    → new.user_fd < max_fds
    → IsFdTable (fds ++ (new ∷ []))
append-IsFdTable new fds t h l = record {
  unique = append-Unique new fds t.unique h;
  bounded = All-append (λ (e : FdEntry). e.user_fd < max_fds) fds (new ∷ []) t.bounded (l, tt);
}

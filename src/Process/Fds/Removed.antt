-- ===== src/Process/Fds/Removed.antt =====
-- `remove_fd` of kernel/src/process/mod.rs moves the last entry, which no lookup sees.
use mathlib.Core.Path.{subst}
use ristux.Common.{
  ℕ, ◌<◌, ◌≡◌, ◌≢◌, ◌∙◌, refl, sym, ap, ◌==◌, Bool-cases, Option-cases, ◌⊎◌, inl, inr, none, some,
  List, [], ◌∷◌, ◌++◌, All, last_or, all_but_last, put_last, ==_iff, arith,
}
use ristux.Process.{Process, FdEntry, max_fds}
use ristux.Process.Fds.{entry_at, swap_remove, remove_fd}
use ristux.Process.Fds.Entries.{Unique, IsFdTable, entry_at-append_new}

abbrev Bounded : List FdEntry → Type 0
Bounded fds = All (λ (e : FdEntry). e.user_fd < max_fds) fds

split_last :
    (e : FdEntry) (es : List FdEntry) → e ∷ es ≡ all_but_last (e ∷ es) ++ (last_or e es ∷ [])
split_last e [] = refl
split_last e (f ∷ es) = ap (λ t. e ∷ t) (split_last f es)

-- The same entries, with the last in front.
record IsRotated (before after : List FdEntry) : Type 0 where
  unique : Unique after
  bounded : Bounded after
  same : (m : ℕ) → entry_at m after ≡ entry_at m before

last_absent :
    (x : FdEntry) (xs : List FdEntry) → Unique (xs ++ (x ∷ [])) → entry_at x.user_fd xs ≡ none
unfolding Unique
last_absent x [] u = refl
last_absent x (e ∷ es) u =
    let found = entry_at-append_new x es (last_absent x es u.1) in
    elim (Bool-cases (e.user_fd == x.user_fd)) [
      | inr f ↦ rw f (last_absent x es u.1)
      | inl f ↦ absurd (cc (u.0, found, (==_iff e.user_fd x.user_fd).0 f))
    ]

entry_at-rotated :
    (x : FdEntry) (xs : List FdEntry) (m : ℕ)
    → Unique (xs ++ (x ∷ []))
    → entry_at m (x ∷ xs) ≡ entry_at m (xs ++ (x ∷ []))
unfolding Unique
entry_at-rotated x [] m u = refl
entry_at-rotated x (e ∷ es) m u =
    ground (arith, entry_at-rotated x es m u.1, last_absent x (e ∷ es) u)

rest_absent :
    (x : FdEntry) (xs : List FdEntry) (m : ℕ)
    → entry_at m (xs ++ (x ∷ [])) ≡ none
    → entry_at m xs ≡ none
rest_absent x [] m h = refl
rest_absent x (e ∷ es) m h = ground (arith, h, rest_absent x es m)

rest-Unique : (x : FdEntry) (xs : List FdEntry) → Unique (xs ++ (x ∷ [])) → Unique xs
unfolding Unique
rest-Unique x [] u = tt
rest-Unique x (e ∷ es) u = (rest_absent x es e.user_fd u.0, rest-Unique x es u.1)

last-Bounded : (x : FdEntry) (xs : List FdEntry) → Bounded (xs ++ (x ∷ [])) → Bounded (x ∷ xs)
last-Bounded x [] b = b
last-Bounded x (e ∷ es) b = let c = last-Bounded x es b.1 in (c.0, (b.0, c.1))

put_last-IsRotated : (es : List FdEntry) → Unique es → Bounded es → IsRotated es (put_last es)
unfolding Unique
put_last-IsRotated [] u b = record { unique = tt; bounded = tt; same = λ m. refl }
put_last-IsRotated (e ∷ es) u b =
    let x = last_or e es in
    let xs = all_but_last (e ∷ es) in
    let v = subst Unique (split_last e es) u in
    record {
      unique = (last_absent x xs v, rest-Unique x xs v);
      bounded = last-Bounded x xs (subst Bounded (split_last e es) b);
      same = λ m. entry_at-rotated x xs m v ∙ ap (entry_at m) (sym (split_last e es));
    }

-- Nobody has this number, and all others are as before.
pub record IsRemoved (user_fd : ℕ) (before after : List FdEntry) : Type 0 where
  pub removed : entry_at user_fd after ≡ none
  pub others : (m : ℕ) → m ≢ user_fd → entry_at m after ≡ entry_at m before
  pub is_table : IsFdTable after

swap_remove-IsRemoved :
    (user_fd : ℕ) (fds : List FdEntry)
    → Unique fds
    → Bounded fds
    → IsRemoved user_fd fds (swap_remove user_fd fds)
unfolding Unique swap_remove
swap_remove-IsRemoved user_fd [] u b = record {
  removed = refl;
  others = λ m ne. refl;
  is_table = record { unique = tt; bounded = tt };
}
swap_remove-IsRemoved user_fd (e ∷ es) u b = elim (Bool-cases (e.user_fd == user_fd)) [
  | inl f ↦
      let r = put_last-IsRotated es u.1 b.1 in
      let i = (==_iff e.user_fd user_fd).0 f in
      rw f (record {
        removed = r.same user_fd ∙ subst (λ n. entry_at n es ≡ none) i u.0;
        others = λ m ne. r.same m ∙ ground (arith, ne, i);
        is_table = record { unique = r.unique; bounded = r.bounded };
      })
  | inr f ↦
      let r = swap_remove-IsRemoved user_fd es u.1 b.1 in
      let ne : e.user_fd ≢ user_fd = λ g. absurd (ground (arith, f, g)) in
      rw f (record {
        removed = rw f r.removed;
        others = λ m g. ground (arith, r.others m g);
        is_table = record {
          unique = (r.others e.user_fd ne ∙ u.0, r.is_table.unique);
          bounded = (b.0, r.is_table.bounded);
        };
      })
]

-- For a table with each number once and below `MAX_FDS`, `remove_fd` gives nothing and changes
-- nothing if the number is not in use; otherwise it gives the VFS descriptor of its entry, after which
-- the number is not in use, all others have the entries they had, and the table has each number once
-- and below `MAX_FDS` again.
pub remove_fd-outcome :
    (user_fd : ℕ) (p : Process)
    → IsFdTable p.fds
    → ((entry_at user_fd p.fds ≡ none) × (remove_fd user_fd p ≡ (none, p)))
      ⊎ ((e : FdEntry) × (q : Process) × (entry_at user_fd p.fds ≡ some e)
          × (remove_fd user_fd p ≡ (some e.vfs_fd, q))
          × IsRemoved user_fd p.fds q.fds)
unfolding remove_fd
remove_fd-outcome user_fd p t = elim (Option-cases (entry_at user_fd p.fds)) [
  | inl e ↦ inl (e, (rw (remove_fd, e) refl))
  | inr (entry, e) ↦ inr (
    entry,
    record p { fds = swap_remove user_fd p.fds },
    e,
    rw (remove_fd, e) refl,
    swap_remove-IsRemoved user_fd p.fds t.unique t.bounded,
  )
]

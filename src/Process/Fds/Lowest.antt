-- ===== src/Process/Fds/Lowest.antt =====
-- A new descriptor of kernel/src/process/mod.rs is the lowest number that is not in use.
use ristux.Common.{
  ℕ, zero, suc, ◌+◌, ◌≤◌, ◌<◌, min, ◌≡◌, ◌≢◌, ◌∙◌, refl, sym, ap, Bool, true, false, ◌==◌, leb,
  Bool-cases, ◌⊎◌, inl, inr, if◌then◌else◌, none, some, List, [], ◌∷◌, ◌++◌, length, length-append,
  arith,
}
use ristux.Common.Results.{ok, err}
use ristux.Process.{Process, FdEntry, max_fds}
use ristux.Process.Fds.{
  too_many_open_files, out_of_memory, is_open, entry_at, fd_limit, set_fd_with_flags, lowest_from,
  lowest_available_fd, push_fd_with_all_flags,
}
use ristux.Process.Fds.Entries.{
  IsFdTable, length-le, is_open-none, entry_at-append_new, entry_at-append_other, append-IsFdTable,
}

-- The lowest number from `first` on that is not in use, below `limit`.
pub record IsLowest (first limit n : ℕ) (fds : List FdEntry) : Type 0 where
  pub from_first : first ≤ n
  pub below_limit : n < limit
  pub unused : is_open n fds ≡ false
  pub used_before : (m : ℕ) → first ≤ m → m < n → is_open m fds ≡ true

abbrev pub AllUsed : ℕ → ℕ → List FdEntry → Type 0
AllUsed first limit fds = (m : ℕ) → first ≤ m → m < limit → is_open m fds ≡ true

same_number : (c m : ℕ) (fds : List FdEntry) → is_open c fds ≡ true → c ≡ m → is_open m fds ≡ true
same_number c m fds h e = ap (λ n. is_open n fds) (sym e) ∙ h

used_from :
    (c limit : ℕ) (fds : List FdEntry)
    → is_open c fds ≡ true
    → AllUsed (suc c) limit fds
    → AllUsed c limit fds
used_from c limit fds h used m l k = elim (Bool-cases (c == m)) [
  | inl e ↦ same_number c m fds h (ground (arith, e))
  | inr e ↦ used m (ground (arith, e, l)) k
]

lowest_from-cases :
    (rounds c : ℕ) (fds : List FdEntry)
    → ((lowest_from rounds c fds ≡ none) × AllUsed c (c + rounds) fds)
      ⊎ ((n : ℕ) × (lowest_from rounds c fds ≡ some n) × IsLowest c (c + rounds) n fds)
unfolding lowest_from
lowest_from-cases zero c fds = inl (refl, λ m l k. absurd (omega (arith, l, k)))
lowest_from-cases (suc rounds) c fds = elim (Bool-cases (is_open c fds)) [
  | inr f ↦ inr (
    c,
    rw (lowest_from, f) refl,
    record {
      from_first = omega arith;
      below_limit = omega arith;
      unused = f;
      used_before = λ m l k. absurd (omega (arith, l, k));
    },
  )
  | inl f ↦ elim (lowest_from-cases rounds (suc c) fds) [
    | inl (e, used) ↦ inl (
      rw (lowest_from, f) e,
      used_from c (c + suc rounds) fds f (λ m l k. used m l (omega (arith, k))),
    )
    | inr (n, e, low) ↦ inr (
      n,
      rw (lowest_from, f) e,
      record {
        from_first = omega (arith, low.from_first);
        below_limit = omega (arith, low.below_limit);
        unused = low.unused;
        used_before = used_from c n fds f low.used_before;
      },
    )
  ]
]

abbrev pub entry : ℕ → ℕ → ℕ → ℕ → FdEntry
entry user_fd vfs_fd status_flags fd_flags = record {
  user_fd = user_fd;
  vfs_fd = vfs_fd;
  status_flags = status_flags;
  fd_flags = fd_flags;
}

-- The table has this entry now, and all others as before.
pub record IsPut (new : FdEntry) (before after : List FdEntry) : Type 0 where
  pub put : entry_at new.user_fd after ≡ some new
  pub others : (m : ℕ) → m ≢ new.user_fd → entry_at m after ≡ entry_at m before
  pub is_table : IsFdTable after

abbrev appended : FdEntry → Process → Process
appended new p = record p {
  fds = p.fds ++ (new ∷ []);
  next_fd = if leb p.next_fd new.user_fd then new.user_fd + 1 else p.next_fd;
}

-- A number that is not in use, below the limit, can only fail for want of memory.
pub set_unused :
    (room : Bool) (new : FdEntry) (p : Process)
    → IsFdTable p.fds
    → is_open new.user_fd p.fds ≡ false
    → new.user_fd < fd_limit p
    → ((room ≡ false) × (set_fd_with_flags room new p ≡ (err out_of_memory, p)))
      ⊎ ((q : Process) × (set_fd_with_flags room new p ≡ (ok tt, q)) × IsPut new p.fds q.fds)
unfolding set_fd_with_flags fd_limit
set_unused room new p t u l =
    let absent = is_open-none new.user_fd p.fds u in
    let grown = append-IsFdTable new p.fds t absent (omega (arith, l)) in
    let small : leb (min p.rlimit_nofile_cur max_fds) new.user_fd ≡ false = ground (arith, l) in
    let few : leb max_fds (length p.fds) ≡ false =
      ground (arith, length-le (p.fds ++ (new ∷ [])) grown, length-append p.fds (new ∷ [])) in
    elim (Bool-cases room) [
      | inr f ↦ inl (f, (rw (small, u, few, f) refl))
      | inl f ↦ inr (
        appended new p,
        rw (small, u, few, f) refl,
        record {
          put = entry_at-append_new new p.fds absent;
          others = entry_at-append_other new p.fds;
          is_table = grown;
        },
      )
    ]

-- For a table with each number once and below `MAX_FDS`, `push_fd_with_all_flags` fails with
-- `TooManyOpenFiles` and the process as it was if all numbers below the limit are in use, with
-- `OutOfMemory` and the process as it was if the vector cannot grow, and otherwise gives the lowest
-- number not in use, which is below the limit and has the new entry; all other numbers have the
-- entries they had, and the table has each number once and below `MAX_FDS` again.
pub push_fd-outcome :
    (room : Bool) (vfs_fd status_flags fd_flags : ℕ) (p : Process)
    → IsFdTable p.fds
    → (AllUsed 0 (fd_limit p) p.fds
        × (push_fd_with_all_flags room vfs_fd status_flags fd_flags p
            ≡ (err too_many_open_files, p)))
      ⊎ ((room ≡ false)
          × (push_fd_with_all_flags room vfs_fd status_flags fd_flags p ≡ (err out_of_memory, p)))
      ⊎ ((n : ℕ) × (q : Process) × (push_fd_with_all_flags room vfs_fd status_flags fd_flags p
            ≡ (ok n, q))
          × IsLowest 0 (fd_limit p) n p.fds
          × IsPut (entry n vfs_fd status_flags fd_flags) p.fds q.fds)
unfolding push_fd_with_all_flags lowest_available_fd
push_fd-outcome room vfs_fd status_flags fd_flags p t =
    elim (lowest_from-cases (fd_limit p) 0 p.fds) [
      | inl (e, used) ↦
          inl (λ m l k. used m l (omega (arith, k)), rw (push_fd_with_all_flags, e) refl)
      | inr (n, e, low) ↦
          elim (set_unused room (entry n vfs_fd status_flags fd_flags) p t low.unused
            (omega (arith, low.below_limit))) [
              | inl (f, g) ↦ inr (inl (f, (rw (push_fd_with_all_flags, e, g, g) refl)))
              | inr (q, g, put) ↦ inr (
                  inr (
                    n,
                    q,
                    rw (push_fd_with_all_flags, e, g, g) refl,
                    record {
                      from_first = low.from_first;
                      below_limit = omega (arith, low.below_limit);
                      unused = low.unused;
                      used_before = low.used_before;
                    },
                    put,
                  ))
            ]
    ]

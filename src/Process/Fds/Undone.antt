-- ===== src/Process/Fds/Undone.antt =====
-- `user_close` undoes `user_dup`, kernel/src/process/mod.rs.
use mathlib.Core.Option.{some-injective}
use ristux.Common.{
  ℕ, ◌≡◌, ◌≢◌, ◌∙◌, refl, sym, ap, Bool, ◌==◌, Bool-cases, inl, inr, none, List, ==_iff, arith,
}
use ristux.Common.Results.{Result, ok, err}
use ristux.Process.{Process, FdEntry}
use ristux.Process.Fds.{entry_at}
use ristux.Process.Fds.Entries.{IsFdTable, is_open-none}
use ristux.Process.Fds.Removed.{remove_fd-outcome}
use ristux.Process.Fds.Calls.{
  user_dup, user_close, SameFiles, IsDup, closed_again, user_dup-outcome,
}
use ristux.Vfs.{VfsError, Vfs}
use ristux.Vfs.Open.{Room}
use ristux.Vfs.Counts.{IsCounted}

restored :
    (m n : ℕ) (r p : List FdEntry)
    → m ≡ n
    → entry_at n r ≡ none
    → entry_at n p ≡ none
    → entry_at m r ≡ entry_at m p
restored m n r p e f g = cc (ap (λ i. entry_at i r) e, ap (λ i. entry_at i p) e, f, g)

-- `user_close` of what a `user_dup` has made.
dup_closed :
    (n user_fd : ℕ) (p q : Process) (v w : Vfs)
    → IsDup user_fd n p q v w
    → (r : Process) × (u : Vfs) × (user_close n q w ≡ (ok tt, r, u))
      × ((m : ℕ) → entry_at m r.fds ≡ entry_at m p.fds)
      × SameFiles v u
      × IsFdTable r.fds
      × IsCounted u
unfolding user_close
dup_closed n user_fd p q v w d =
    let (u, closes, same, counted) = closed_again d.source.vfs_fd d.dup v w d.duplicated in
    elim (remove_fd-outcome n q d.put.is_table) [
      | inl (absent, f) ↦ absurd (cc (absent, d.put.put))
      | inr (e, r, found, f, gone) ↦
          let vfs : e.vfs_fd ≡ d.dup =
            ap (λ (x : FdEntry). x.vfs_fd) (some-injective _ _ (sym found ∙ d.put.put)) in
          (
            r,
            u,
            rw (user_close, f, f, vfs, closes) refl,
            (λ m. elim (Bool-cases (m == n)) [
              | inl g ↦
                  restored m n r.fds p.fds ((==_iff m n).0 g) gone.removed
                    (is_open-none n p.fds d.lowest.unused)
              | inr g ↦
                  let ne : m ≢ n = λ h. absurd (ground (arith, g, h)) in
                  gone.others m ne ∙ d.put.others m ne
            ]),
            same,
            gone.is_table,
            counted,
          )
    ]

-- The number in a result.
abbrev number_in : Result ℕ VfsError → ℕ
number_in (ok n) = n
number_in (err e) = 0

-- For a table with each number once and below `MAX_FDS`, and right counts of pipe and terminal ends: if
-- `user_dup` gives a number, `user_close` of this number succeeds, and then every number has the entry
-- and every VFS descriptor the handle that it had before, and table and counts are right.
pub user_close-user_dup :
    (room : Room) (grows : Bool) (user_fd n : ℕ) (p q : Process) (v w : Vfs)
    → IsFdTable p.fds
    → IsCounted v
    → user_dup room grows user_fd p v ≡ (ok n, q, w)
    → (r : Process) × (u : Vfs) × (user_close n q w ≡ (ok tt, r, u))
      × ((m : ℕ) → entry_at m r.fds ≡ entry_at m p.fds)
      × SameFiles v u
      × IsFdTable r.fds
      × IsCounted u
user_close-user_dup room grows user_fd n p q v w t c h =
    elim (user_dup-outcome room grows user_fd p v t c) [
      | inl (e, x, f, same, counted) ↦ absurd (cc (f, h))
      | inr (m, s, x, f, d) ↦
          let (r, u, g, entries, same, table, counted) = dup_closed m user_fd p s v x d in
          let path = sym h ∙ f in
          (
            r,
            u,
            ap (λ o. user_close (number_in o.0) o.1 o.2) path ∙ g,
            entries,
            same,
            table,
            counted,
          )
    ]

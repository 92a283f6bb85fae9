-- ===== src/Process/Fds/Replaced.antt =====
-- `user_dup2` and `user_dup3` of kernel/src/process/mod.rs, which put a duplicate at a given number and
-- close what was there.
pub mod Outcome
use mathlib.Core.Path.{subst}
use ristux.Common.{
  ℕ, ◌<◌, ◌≡◌, ◌≢◌, ◌∙◌, refl, Bool, ◌==◌, Bool-cases, inl, inr, if◌then◌else◌, Option, none, some,
  List, [], ◌∷◌, All, ==_iff, arith,
}
use ristux.Common.Results.{Result, ok, err}
use ristux.Process.{Process, FdEntry, max_fds}
use ristux.Process.Fds.{
  FdTableError, too_many_open_files, out_of_memory, is_open, entry_at, set_entry,
  replace_fd_with_flags,
}
use ristux.Process.Fds.Entries.{Unique, IsFdTable}
use ristux.Process.Fds.Lowest.{IsPut, entry}
use ristux.Vfs.{VfsError, bad_fd, Vfs}
use ristux.Vfs.Open.{Room, duplicate_fd, close}

abbrev pub map_dup_target_error : FdTableError → VfsError
map_dup_target_error too_many_open_files = bad_fd
map_dup_target_error out_of_memory = VfsError.out_of_memory

-- `if let Some(old) = old { fs::close(old)?; }`, and the answer.
abbrev pub close_old : Option ℕ → ℕ → Process → Vfs → Result ℕ VfsError × Process × Vfs
close_old none target p v = (ok target, p, v)
close_old (some old) target p v =
    let (result, w) = close old v in
    elim result [ err e ↦ (err e, p, w) | ok done ↦ (ok target, p, w) ]

abbrev pub install_at : Bool → FdEntry → Process → Vfs → Result ℕ VfsError × Process × Vfs
install_at grows new p v =
    let (result, q) = replace_fd_with_flags grows new p in
    elim result [
      | err e ↦ (err (map_dup_target_error e), q, (close new.vfs_fd v).1)
      | ok old ↦ close_old old new.user_fd q v
    ]

-- Two different numbers.
unfoldable pub duplicate_to :
    Room → Bool → ℕ → ℕ → ℕ → Process → Vfs → Result ℕ VfsError × Process × Vfs
duplicate_to room grows user_fd target fd_flags p v = elim (entry_at user_fd p.fds) [
  | none ↦ (err bad_fd, p, v)
  | some e ↦
      let (result, w) = duplicate_fd room e.vfs_fd v in
      elim result [
        | err f ↦ (err f, p, w)
        | ok dup ↦ install_at grows (entry target dup e.status_flags fd_flags) p w
      ]
]

unfoldable pub user_dup2 : Room → Bool → ℕ → ℕ → Process → Vfs → Result ℕ VfsError × Process × Vfs
user_dup2 room grows user_fd target p v =
    if user_fd == target
    then (if is_open user_fd p.fds then (ok target, p, v) else (err bad_fd, p, v))
    else duplicate_to room grows user_fd target 0 p v

unfoldable pub user_dup3 :
    Room → Bool → ℕ → ℕ → ℕ → Process → Vfs → Result ℕ VfsError × Process × Vfs
user_dup3 room grows user_fd target fd_flags p v =
    if user_fd == target
    then (err bad_fd, p, v)
    else duplicate_to room grows user_fd target fd_flags p v

entry_at-set_entry :
    (new old : FdEntry) (fds : List FdEntry)
    → entry_at new.user_fd fds ≡ some old
    → entry_at new.user_fd (set_entry new fds) ≡ some new
entry_at-set_entry new old [] h = cc
entry_at-set_entry new old (e ∷ es) h = ground (arith, h, entry_at-set_entry new old es)

entry_at-set_other :
    (new : FdEntry) (fds : List FdEntry) (m : ℕ)
    → m ≢ new.user_fd
    → entry_at m (set_entry new fds) ≡ entry_at m fds
entry_at-set_other new [] m ne = refl
entry_at-set_other new (e ∷ es) m ne = ground (arith, ne, entry_at-set_other new es m ne)

set_entry-Unique : (new : FdEntry) (fds : List FdEntry) → Unique fds → Unique (set_entry new fds)
unfolding Unique
set_entry-Unique new [] u = tt
set_entry-Unique new (e ∷ es) u = elim (Bool-cases (e.user_fd == new.user_fd)) [
  | inl f ↦ rw f (subst (λ n. entry_at n es ≡ none) ((==_iff e.user_fd new.user_fd).0 f) u.0, u.1)
  | inr f ↦
      let ne : e.user_fd ≢ new.user_fd = λ g. absurd (ground (arith, f, g)) in
      rw f (entry_at-set_other new es e.user_fd ne ∙ u.0, set_entry-Unique new es u.1)
]

set_entry-bounded :
    (new : FdEntry) (fds : List FdEntry)
    → new.user_fd < max_fds
    → All (λ (e : FdEntry). e.user_fd < max_fds) fds
    → All (λ (e : FdEntry). e.user_fd < max_fds) (set_entry new fds)
set_entry-bounded new [] l b = tt
set_entry-bounded new (e ∷ es) l b = elim (Bool-cases (e.user_fd == new.user_fd)) [
  | inl f ↦ rw f (l, b.1)
  | inr f ↦ rw f (b.0, set_entry-bounded new es l b.1)
]

pub set_entry-IsPut :
    (new old : FdEntry) (fds : List FdEntry)
    → IsFdTable fds
    → new.user_fd < max_fds
    → entry_at new.user_fd fds ≡ some old
    → IsPut new fds (set_entry new fds)
set_entry-IsPut new old fds t l h = record {
  put = entry_at-set_entry new old fds h;
  others = entry_at-set_other new fds;
  is_table = record {
    unique = set_entry-Unique new fds t.unique;
    bounded = set_entry-bounded new fds l t.bounded;
  };
}

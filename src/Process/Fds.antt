-- ===== src/Process/Fds.antt =====
-- The descriptor table of a process, kernel/src/process/mod.rs. The answer of `try_reserve_exact` is an
-- argument.
pub mod Lowest
pub mod Entries
pub mod Removed
pub mod Calls
pub mod Undone
pub mod Duplicated
pub mod Replaced
use ristux.Common.{
  ℕ, zero, suc, ◌+◌, min, Bool, true, false, not, ◌==◌, leb, if◌then◌else◌, Option, none, some,
  List, [], ◌∷◌, ◌++◌, length, any, put_last,
}
use ristux.Common.Results.{Result, ok, err}
use ristux.Process.{Process, FdEntry, max_fds}

pub data FdTableError : Type 0 where
  too_many_open_files out_of_memory : FdTableError

abbrev pub is_open : ℕ → List FdEntry → Bool
is_open user_fd fds = any (λ e. e.user_fd == user_fd) fds

abbrev pub entry_at : ℕ → List FdEntry → Option FdEntry
entry_at user_fd [] = none
entry_at user_fd (e ∷ es) = if e.user_fd == user_fd then some e else entry_at user_fd es

abbrev pub set_entry : FdEntry → List FdEntry → List FdEntry
set_entry new [] = []
set_entry new (e ∷ es) = if e.user_fd == new.user_fd then new ∷ es else e ∷ set_entry new es

unfoldable pub fd_limit : Process → ℕ
fd_limit p = min p.rlimit_nofile_cur max_fds

unfoldable pub set_fd_with_flags :
    Bool → FdEntry → Process → Result {0, 0} Unit FdTableError × Process
set_fd_with_flags room new p =
    if leb (fd_limit p) new.user_fd
    then (err too_many_open_files, p)
    else if is_open new.user_fd p.fds
    then (ok tt, record p { fds = set_entry new p.fds })
    else if leb max_fds (length p.fds)
    then (err too_many_open_files, p)
    else if not room
    then (err out_of_memory, p)
    else (
      ok tt,
      record p {
        fds = p.fds ++ (new ∷ []);
        next_fd = if leb p.next_fd new.user_fd then new.user_fd + 1 else p.next_fd;
      },
    )

abbrev pub vfs_fd_of : Option FdEntry → Option ℕ
vfs_fd_of none = none
vfs_fd_of (some e) = some e.vfs_fd

unfoldable pub lookup_fd : ℕ → Process → Option ℕ
lookup_fd user_fd p = vfs_fd_of (entry_at user_fd p.fds)

-- The candidates from this one, so many.
unfoldable pub lowest_from : ℕ → ℕ → List FdEntry → Option ℕ
lowest_from zero candidate fds = none
lowest_from (suc rounds) candidate fds = elim (is_open candidate fds) [
  | true ↦ lowest_from rounds (suc candidate) fds
  | false ↦ some candidate
]

unfoldable pub lowest_available_fd : Process → Option ℕ
lowest_available_fd p = lowest_from (fd_limit p) 0 p.fds

unfoldable pub push_fd_with_all_flags : Bool → ℕ → ℕ → ℕ → Process → Result ℕ FdTableError × Process
push_fd_with_all_flags room vfs_fd status_flags fd_flags p = elim (lowest_available_fd p) [
  | none ↦ (err too_many_open_files, p)
  | some user_fd ↦
      let (result, q) =
        set_fd_with_flags room
          (record {
            user_fd = user_fd;
            vfs_fd = vfs_fd;
            status_flags = status_flags;
            fd_flags = fd_flags;
          })
          p in
      elim result [ err e ↦ (err e, q) | ok done ↦ (ok user_fd, q) ]
]

-- `Vec::swap_remove` at the first element of this number: the last takes its place.
unfoldable pub swap_remove : ℕ → List FdEntry → List FdEntry
swap_remove user_fd [] = []
swap_remove user_fd (e ∷ es) =
    if e.user_fd == user_fd then put_last es else e ∷ swap_remove user_fd es

unfoldable pub remove_fd : ℕ → Process → Option ℕ × Process
remove_fd user_fd p = elim (entry_at user_fd p.fds) [
  | none ↦ (none, p)
  | some e ↦ (some e.vfs_fd, record p { fds = swap_remove user_fd p.fds })
]

unfoldable pub replace_fd_with_flags :
    Bool → FdEntry → Process → Result (Option ℕ) FdTableError × Process
replace_fd_with_flags room new p =
    if leb (fd_limit p) new.user_fd
    then (err too_many_open_files, p)
    else elim (entry_at new.user_fd p.fds) [
      | some old ↦ (ok (some old.vfs_fd), record p { fds = set_entry new p.fds })
      | none ↦
          let (result, q) = set_fd_with_flags room new p in
          elim result [ err e ↦ (err e, q) | ok done ↦ (ok none, q) ]
    ]

-- ===== src/Process/Group.antt =====
-- `exit_group` of kernel/src/process/mod.rs: the end of all processes that share an address space.
pub mod Over
use ristux.Common.{
  ℕ, Bool, false, ◌&&◌, not, ◌==◌, leb, if◌then◌else◌, Option, none, some, List, [], ◌∷◌, ◌++◌,
}
use ristux.Process.{Process, ExitReason, exited, Kernel, no_wake, extend, is_zombie, contains}
use ristux.Process.Table.{get, Waking}
use ristux.Process.Exit.{Spaces, ◌>>=◌, exit_with_reason, reap_zombies}

abbrev pub live_members : ℕ → List Process → List ℕ
live_members space [] = []
live_members space (p ∷ ps) =
    let rest = live_members space ps in
    if p.address_space == space && not (is_zombie p.state) then p.pid ∷ rest else rest

abbrev pub has_parent_in : List ℕ → Option ℕ → Bool
has_parent_in members none = false
has_parent_in members (some parent) = contains members parent

abbrev pub internal_members : List ℕ → List Process → List ℕ
internal_members members [] = []
internal_members members (p ∷ ps) =
    let rest = internal_members members ps in
    if contains members p.pid && has_parent_in members p.parent then p.pid ∷ rest else rest

-- `sort`.
abbrev pub insert_pid : ℕ → List ℕ → List ℕ
insert_pid pid [] = pid ∷ []
insert_pid pid (q ∷ qs) = if leb pid q then pid ∷ (q ∷ qs) else q ∷ insert_pid pid qs

abbrev pub sort_pids : List ℕ → List ℕ
sort_pids [] = []
sort_pids (p ∷ ps) = insert_pid p (sort_pids ps)

abbrev pub remove_first : ℕ → List ℕ → List ℕ
remove_first pid [] = []
remove_first pid (q ∷ qs) = if q == pid then qs else q ∷ remove_first pid qs

-- The caller goes last.
abbrev pub move_last : ℕ → List ℕ → List ℕ
move_last pid members =
    if contains members pid then remove_first pid members ++ (pid ∷ []) else members

unfoldable pub exit_all :
    (ℕ → ExitReason → Kernel → Option Waking) → List ℕ → ℕ → Waking → Option Waking
exit_all exit [] status s = some s
exit_all exit (member ∷ rest) status (w, k) =
    exit member (exited status) k >>= λ s. exit_all exit rest status (extend w s.0, s.1)

unfoldable pub exit_group : Spaces → ℕ → ℕ → ℕ → Kernel → Option Waking
exit_group env fuel pid status k = elim (get k pid) [
  | none ↦ some (no_wake, k)
  | some p ↦
      let members = live_members p.address_space k.processes in
      exit_all (exit_with_reason env fuel) (move_last pid (sort_pids members)) status (no_wake, k)
      >>= λ s. some (s.0, reap_zombies (internal_members members k.processes) s.1)
]

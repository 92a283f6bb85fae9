-- ===== src/Vfs/Counts.antt =====
-- The counts of a pipe's and a pseudo terminal's ends against the open-file table.
pub mod Changes
pub mod Handles
pub mod Kept
pub mod Created
use ristux.Common.{ℕ, ◌+◌, ◌==◌, ◌≡◌, if◌then◌else◌, Option, none, some, List, [], ◌∷◌, get_elem?}
use ristux.Vfs.{
  OpenHandle, node, pipe_read, pipe_write, pty_master, pty_slave, ext2_file, ext2_dir, PipeState,
  PtyState, Vfs,
}

-- The ends.
pub data Role : Type 0 where
  reader writer master slave : Role

abbrev pub one : Role → Role → ℕ
one reader role = elim role [ reader ↦ 1 | _ ↦ 0 ]
one writer role = elim role [ writer ↦ 1 | _ ↦ 0 ]
one master role = elim role [ master ↦ 1 | _ ↦ 0 ]
one slave role = elim role [ slave ↦ 1 | _ ↦ 0 ]

abbrev pub pipe_count : Role → PipeState → ℕ
pipe_count reader p = p.readers
pipe_count writer p = p.writers
pipe_count master p = 0
pipe_count slave p = 0

abbrev pub pty_count : Role → PtyState → ℕ
pty_count reader p = 0
pty_count writer p = 0
pty_count master p = p.masters
pty_count slave p = p.slaves

abbrev pub count_of {ℓ} : {A : Type ℓ} → (A → ℕ) → Option A → ℕ
count_of count none = 0
count_of count (some x) = count x

abbrev pub count_at {ℓ} : {A : Type ℓ} → (A → ℕ) → List A → ℕ → ℕ
count_at count xs i = count_of count (get_elem? xs i)

-- What the kernel counts for this end at this index: none beyond the pipes and terminals there are.
unfoldable pub pipe_ends : Role → ℕ → Vfs → ℕ
pipe_ends role i v = count_at (pipe_count role) v.pipes i

unfoldable pub pty_ends : Role → ℕ → Vfs → ℕ
pty_ends role i v = count_at (pty_count role) v.ptys i

abbrev pub on_pipe : Role → ℕ → OpenHandle → ℕ
on_pipe role i (pipe_read pipe) = if pipe == i then one reader role else 0
on_pipe role i (pipe_write pipe) = if pipe == i then one writer role else 0
on_pipe role i (pty_master pty rights) = 0
on_pipe role i (pty_slave pty rights) = 0
on_pipe role i (node n offset rights) = 0
on_pipe role i (ext2_file path offset rights) = 0
on_pipe role i (ext2_dir path offset) = 0

abbrev pub on_pty : Role → ℕ → OpenHandle → ℕ
on_pty role i (pipe_read pipe) = 0
on_pty role i (pipe_write pipe) = 0
on_pty role i (pty_master pty rights) = if pty == i then one master role else 0
on_pty role i (pty_slave pty rights) = if pty == i then one slave role else 0
on_pty role i (node n offset rights) = 0
on_pty role i (ext2_file path offset rights) = 0
on_pty role i (ext2_dir path offset) = 0

-- The sum over the open files.
unfoldable pub held : (OpenHandle → ℕ) → List (Option OpenHandle) → ℕ
held f [] = 0
held f (none ∷ slots) = held f slots
held f (some handle ∷ slots) = f handle + held f slots

-- Each pipe and each terminal counts just the open files that are its ends.
pub record IsCounted (v : Vfs) : Type 0 where
  pub pipes_count : (role : Role) (i : ℕ) → pipe_ends role i v ≡ held (on_pipe role i) v.open_files
  pub ptys_count : (role : Role) (i : ℕ) → pty_ends role i v ≡ held (on_pty role i) v.open_files

-- ===== src/Vfs.antt =====
-- kernel/src/fs/vfs.rs: open files, pipes and pseudo terminals. The data; the children have the
-- operations. Bytes are numbers, and a pseudo terminal has the settings that its `termios` bytes stand
-- for. The nodes and the mounted file systems are left out.
pub mod Pipe
pub mod Open
pub mod Counts
pub mod Stream
pub mod Hangup
pub mod Tests
use ristux.Common.{ℕ, Bool, true, Option, List, [], ◌∷◌}
use ristux.Tty.{Termios, default}

pub data VfsError : Type 0 where
  not_found not_file bad_fd utf8 already_exists permission_denied would_block too_many_open_files :
      VfsError
  too_many_links no_space out_of_memory broken_pipe : VfsError

pub record OpenRights : Type 0 where
  pub read : Bool
  pub write : Bool

pub data OpenHandle : Type 0 where
  node : ℕ → ℕ → OpenRights → OpenHandle
  pipe_read : ℕ → OpenHandle
  pipe_write : ℕ → OpenHandle
  pty_master : ℕ → OpenRights → OpenHandle
  pty_slave : ℕ → OpenRights → OpenHandle
  ext2_file : List ℕ → ℕ → OpenRights → OpenHandle
  ext2_dir : List ℕ → ℕ → OpenHandle

pub record PipeState : Type 0 where
  pub buffer : List ℕ
  pub capacity : ℕ
  pub readers : ℕ
  pub writers : ℕ

pub record PtyState : Type 0 where
  pub master_to_slave : List ℕ
  pub slave_to_master : List ℕ
  pub input_line : List ℕ
  pub capacity : ℕ
  pub masters : ℕ
  pub slaves : ℕ
  pub locked : Bool
  pub termios : Termios
  pub winsize : List ℕ
  pub foreground_pgrp : ℕ

-- `open_files`, `pipes` and `ptys`.
pub record Vfs : Type 0 where
  pub open_files : List (Option OpenHandle)
  pub pipes : List PipeState
  pub ptys : List PtyState

abbrev pub new_pipe : ℕ → PipeState
new_pipe capacity = record { buffer = []; capacity = capacity; readers = 1; writers = 1 }

abbrev pub new_pty : ℕ → PtyState
new_pty capacity = record {
  master_to_slave = [];
  slave_to_master = [];
  input_line = [];
  capacity = capacity;
  masters = 1;
  slaves = 0;
  locked = true;
  termios = default;
  winsize = 24 ∷ 0 ∷ 80 ∷ 0 ∷ 0 ∷ 0 ∷ 0 ∷ 0 ∷ [];
  foreground_pgrp = 1;
}

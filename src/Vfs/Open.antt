-- ===== src/Vfs/Open.antt =====
-- The open-file table of kernel/src/fs/vfs.rs: handles, and the end counts of pipes and pseudo
-- terminals that they keep.
use ristux.Common.{
  ℕ, suc, ◌+◌, ◌-◌, Bool, ◌&&◌, ◌||◌, leb, if◌then◌else◌, Option, none, some, List, [], ◌∷◌, ◌++◌,
  length, get_elem?, set,
}
use ristux.Common.Results.{Result, ok, err}
use ristux.Vfs.{
  VfsError, bad_fd, not_found, permission_denied, out_of_memory, OpenRights, OpenHandle, node,
  pipe_read, pipe_write, pty_master, pty_slave, ext2_file, ext2_dir, PipeState, PtyState, Vfs,
  new_pipe, new_pty,
}
use ristux.Vfs.Pipe.{add_reader, add_writer, close_reader, close_writer, read, write}

-- Whether the allocator has room for a vector of so many elements.
pub record Room : Type 0 where
  pub slots : ℕ → Bool
  pub pipes : ℕ → Bool
  pub ptys : ℕ → Bool

abbrev pub add_master : PtyState → PtyState
add_master p = record p { masters = p.masters + 1 }

abbrev pub add_slave : PtyState → PtyState
add_slave p = record p { slaves = p.slaves + 1 }

abbrev pub close_master : PtyState → PtyState
close_master p = record p { masters = p.masters - 1 }

abbrev pub close_slave : PtyState → PtyState
close_slave p = record p { slaves = p.slaves - 1 }

abbrev pub free_slots : List (Option OpenHandle) → ℕ
free_slots [] = 0
free_slots (none ∷ slots) = suc (free_slots slots)
free_slots (some handle ∷ slots) = free_slots slots

-- `reserve_open_handle_slots`: whether it succeeds.
unfoldable pub reserve_open_handle_slots : Room → ℕ → Vfs → Bool
reserve_open_handle_slots room count v =
    let free = free_slots v.open_files in
    leb count free || room.slots (length v.open_files + (count - free))

-- The loop over the slots, and the push after it.
unfoldable pub place : OpenHandle → List (Option OpenHandle) → ℕ × List (Option OpenHandle)
place handle [] = (0, some handle ∷ [])
place handle (none ∷ slots) = (0, some handle ∷ slots)
place handle (some other ∷ slots) =
    let (fd, rest) = place handle slots in (suc fd, some other ∷ rest)

unfoldable pub push_open_handle : Room → OpenHandle → Vfs → Result ℕ VfsError × Vfs
push_open_handle room handle v =
    if reserve_open_handle_slots room 1 v
    then (let (fd, slots) = place handle v.open_files in (ok fd, record v { open_files = slots }))
    else (err out_of_memory, v)

-- A change of the pipe or the terminal at an index, if it is there.
unfoldable pub with_pipe : (PipeState → PipeState) → ℕ → Vfs → Option Vfs
with_pipe f pipe v = elim (get_elem? v.pipes pipe) [
  | none ↦ none
  | some p ↦ some (record v { pipes = set v.pipes pipe (f p) })
]

unfoldable pub with_pty : (PtyState → PtyState) → ℕ → Vfs → Option Vfs
with_pty f pty v = elim (get_elem? v.ptys pty) [
  | none ↦ none
  | some p ↦ some (record v { ptys = set v.ptys pty (f p) })
]

-- None is `BadFd`.
abbrev pub retain_handle : OpenHandle → Vfs → Option Vfs
retain_handle (pipe_read pipe) v = with_pipe add_reader pipe v
retain_handle (pipe_write pipe) v = with_pipe add_writer pipe v
retain_handle (pty_master pty rights) v = with_pty add_master pty v
retain_handle (pty_slave pty rights) v = with_pty add_slave pty v
retain_handle (node n offset rights) v = some v
retain_handle (ext2_file path offset rights) v = some v
retain_handle (ext2_dir path offset) v = some v

abbrev pub release_handle : OpenHandle → Vfs → Option Vfs
release_handle (pipe_read pipe) v = with_pipe close_reader pipe v
release_handle (pipe_write pipe) v = with_pipe close_writer pipe v
release_handle (pty_master pty rights) v = with_pty close_master pty v
release_handle (pty_slave pty rights) v = with_pty close_slave pty v
release_handle (node n offset rights) v = some v
release_handle (ext2_file path offset rights) v = some v
release_handle (ext2_dir path offset) v = some v

-- The handle behind a descriptor.
abbrev pub handle_at : List (Option OpenHandle) → ℕ → Option OpenHandle
handle_at slots fd = elim (get_elem? slots fd) [ none ↦ none | some slot ↦ slot ]

unfoldable pub duplicate_fd : Room → ℕ → Vfs → Result ℕ VfsError × Vfs
duplicate_fd room fd v = elim (handle_at v.open_files fd) [
  | none ↦ (err bad_fd, v)
  | some handle ↦
      if reserve_open_handle_slots room 1 v
      then elim (retain_handle handle v) [
        | none ↦ (err bad_fd, v)
        | some w ↦ push_open_handle room handle w
      ]
      else (err out_of_memory, v)
]

unfoldable pub close : ℕ → Vfs → Result {0, 0} Unit VfsError × Vfs
close fd v = elim (handle_at v.open_files fd) [
  | none ↦ (err bad_fd, v)
  | some handle ↦
      let w = record v { open_files = set v.open_files fd none } in
      elim (release_handle handle w) [ none ↦ (err bad_fd, w) | some u ↦ (ok tt, u) ]
]

-- The first `?` that fails ends the function.
unfoldable pub create_pipe : Room → ℕ → Vfs → Result (ℕ × ℕ) VfsError × Vfs
create_pipe room capacity v =
    let pipe = length v.pipes in
    let w = record v { pipes = v.pipes ++ (new_pipe capacity ∷ []) } in
    if reserve_open_handle_slots room 2 v && room.pipes (suc pipe)
    then (let (first, u) = push_open_handle room (pipe_read pipe) w in
        elim first [
          | err e ↦ (err e, u)
          | ok read_fd ↦
              let (second, t) = push_open_handle room (pipe_write pipe) u in
              elim second [ err e ↦ (err e, t) | ok write_fd ↦ (ok (read_fd, write_fd), t) ]
        ])
    else (err out_of_memory, v)

-- With the outcome of `ensure_pty_slave_node`.
unfoldable pub open_pty_master : Room → Option VfsError → OpenRights → Vfs → Result ℕ VfsError × Vfs
open_pty_master room node_error rights v =
    let pty = length v.ptys in
    let w = record v { ptys = v.ptys ++ (new_pty 4096 ∷ []) } in
    if reserve_open_handle_slots room 1 v && room.ptys (suc pty)
    then elim node_error [
      | some e ↦ (err e, v)
      | none ↦ push_open_handle room (pty_master pty rights) w
    ]
    else (err out_of_memory, v)

unfoldable pub open_pty_slave : Room → ℕ → OpenRights → Vfs → Result ℕ VfsError × Vfs
open_pty_slave room pty rights v = elim (get_elem? v.ptys pty) [
  | none ↦ (err not_found, v)
  | some p ↦
      if p.locked
      then (err permission_denied, v)
      else if reserve_open_handle_slots room 1 v
      then push_open_handle room (pty_slave pty rights)
          (record v { ptys = set v.ptys pty (add_slave p) })
      else (err out_of_memory, v)
]

-- The arms of `Vfs::read` and `Vfs::write` for the ends of a pipe, without the waking of processes
-- that wait for input.
unfoldable pub read_pipe : ℕ → ℕ → Vfs → Result (List ℕ) VfsError × Vfs
read_pipe pipe len v = elim (get_elem? v.pipes pipe) [
  | none ↦ (err bad_fd, v)
  | some p ↦ let (result, q) = read len p in (result, record v { pipes = set v.pipes pipe q })
]

unfoldable pub write_pipe : ℕ → List ℕ → Vfs → Result ℕ VfsError × Vfs
write_pipe pipe input v = elim (get_elem? v.pipes pipe) [
  | none ↦ (err bad_fd, v)
  | some p ↦ let (result, q) = write input p in (result, record v { pipes = set v.pipes pipe q })
]

-- ===== src/Vfs/Tests.antt =====
-- Runs of the open-file table and the pipes of kernel/src/fs/vfs.rs, and the theorems at small inputs.
use ristux.Common.{
  ℕ, zero, suc, ◌≤◌, ◌≡◌, ◌↔◌, ◌⊎◌, ◌++◌, refl, true, none, some, List, [], ◌∷◌, length, arith,
}
use ristux.Common.Results.{ok, err}
use ristux.Vfs.{
  bad_fd, would_block, broken_pipe, out_of_memory, pipe_read, pipe_write, Vfs, new_pipe,
}
use ristux.Vfs.Pipe.{pop_bytes, push_bytes, read, write}
use ristux.Vfs.Open.{
  Room, reserve_open_handle_slots, place, push_open_handle, with_pipe, handle_at, duplicate_fd,
  close, create_pipe, read_pipe, write_pipe,
}
use ristux.Vfs.Counts.{
  Role, reader, writer, master, slave, on_pipe, pipe_ends, pty_ends, held, IsCounted,
}
use ristux.Vfs.Counts.Kept.{IsClosed, close-outcome}
use ristux.Vfs.Counts.Created.{IsPiped, create_pipe-outcome}
use ristux.Vfs.Stream.{Call, reads, writes, run, run-fifo}
use ristux.Vfs.Hangup.{NoFile, buffer_at, read_pipe-end_of_file}

abbrev pub plenty : Room
plenty = record { slots = λ n. true; pipes = λ n. true; ptys = λ n. true }

abbrev empty : Vfs
empty = record { open_files = []; pipes = []; ptys = [] }

empty-IsCounted : IsCounted empty
unfolding pipe_ends pty_ends held
empty-IsCounted = record { pipes_count = λ role i. refl; ptys_count = λ role i. refl }

-- One pipe with both ends open.
abbrev pub piped : Vfs
piped = record {
  open_files = some (pipe_read 0) ∷ some (pipe_write 0) ∷ [];
  pipes = new_pipe 4 ∷ [];
  ptys = [];
}

piped_lem : create_pipe plenty 4 empty ≡ (ok (0, 1), piped)
unfolding create_pipe push_open_handle place reserve_open_handle_slots
piped_lem = refl

piped_ends : (role : Role) (i : ℕ) → pipe_ends role i piped ≡ held (on_pipe role i) piped.open_files
unfolding pipe_ends held
piped_ends reader zero = refl
piped_ends reader (suc i) = ground arith
piped_ends writer zero = refl
piped_ends writer (suc i) = ground arith
piped_ends master zero = refl
piped_ends master (suc i) = ground arith
piped_ends slave zero = refl
piped_ends slave (suc i) = ground arith

pub piped-IsCounted : IsCounted piped
unfolding pty_ends held
piped-IsCounted = record { pipes_count = piped_ends; ptys_count = λ role i. refl }

-- Duplicating the write end; and what both ends say when the other has been closed.
closes_lem :
    (duplicate_fd plenty 1 piped).0 ≡ ok 2
    × ((read_pipe 0 8 piped).0 ≡ err would_block)
    × ((read_pipe 0 8 (close 1 piped).1).0 ≡ ok [])
    × ((write_pipe 0 (7 ∷ []) (close 0 piped).1).0 ≡ err broken_pipe)
unfolding duplicate_fd close push_open_handle place reserve_open_handle_slots with_pipe read_pipe
    write_pipe read write pop_bytes push_bytes
closes_lem = (refl, refl, refl, refl)

create_pipe-outcome_example :
    (create_pipe plenty 4 empty ≡ (err out_of_memory, empty))
    ⊎ ((r : ℕ) × (s : ℕ) × (w : Vfs) × (create_pipe plenty 4 empty ≡ (ok (r, s), w))
        × IsPiped 4 r s empty w)
create_pipe-outcome_example = create_pipe-outcome plenty 4 empty (λ m n l h. refl) empty-IsCounted

close-outcome_example :
    ((handle_at piped.open_files 1 ≡ none) × (close 1 piped ≡ (err bad_fd, piped)))
    ⊎ ((w : Vfs) × (close 1 piped ≡ (ok tt, w)) × IsClosed 1 piped w)
close-outcome_example = close-outcome 1 piped piped-IsCounted

read_pipe-end_of_file_example :
    ((read_pipe 0 8 piped).0 ≡ ok []) ↔ ((buffer_at 0 piped ≡ []) × NoFile (pipe_write 0) piped)
read_pipe-end_of_file_example = read_pipe-end_of_file piped 0 0 7 piped-IsCounted refl

abbrev calls : List Call
calls = writes (1 ∷ 2 ∷ 3 ∷ []) ∷ reads 2 ∷ writes (4 ∷ 5 ∷ 6 ∷ 7 ∷ []) ∷ reads 3 ∷ []

-- The last write stops when the four bytes of the buffer are full.
run_lem : (run calls (new_pipe 4)).0 ≡ 1 ∷ 2 ∷ 3 ∷ 4 ∷ 5 ∷ 6 ∷ []
unfolding read write pop_bytes push_bytes
run_lem = refl

run-fifo_example :
    ((run calls (new_pipe 4)).1 ++ (run calls (new_pipe 4)).2.buffer
      ≡ (new_pipe 4).buffer ++ (run calls (new_pipe 4)).0)
    × (length (run calls (new_pipe 4)).2.buffer ≤ (run calls (new_pipe 4)).2.capacity)
run-fifo_example = run-fifo calls (new_pipe 4) (omega arith)

-- ===== src/Vfs/Pipe.antt =====
-- `PipeState` and `read_queue` of kernel/src/fs/vfs.rs. A read gives the bytes it put in the output.
use ristux.Common.{
  ℕ, zero, suc, ◌+◌, ◌-◌, Bool, true, false, ◌&&◌, ◌||◌, not, ◌==◌, ltb, if◌then◌else◌, List, [],
  ◌∷◌, ◌++◌, length,
}
use ristux.Common.Results.{Result, ok, err}
use ristux.Vfs.{VfsError, would_block, broken_pipe, PipeState}

abbrev pub is_empty {ℓ} : {A : Type ℓ} → List A → Bool
is_empty [] = true
is_empty (x ∷ xs) = false

abbrev pub add_reader : PipeState → PipeState
add_reader p = record p { readers = p.readers + 1 }

abbrev pub add_writer : PipeState → PipeState
add_writer p = record p { writers = p.writers + 1 }

abbrev pub close_reader : PipeState → PipeState
close_reader p = record p { readers = p.readers - 1 }

abbrev pub close_writer : PipeState → PipeState
close_writer p = record p { writers = p.writers - 1 }

-- The loop over the output: the bytes read, and the rest of the queue.
unfoldable pub pop_bytes : ℕ → List ℕ → List ℕ × List ℕ
pop_bytes zero queue = ([], queue)
pop_bytes (suc n) [] = ([], [])
pop_bytes (suc n) (value ∷ queue) = let (bytes, rest) = pop_bytes n queue in (value ∷ bytes, rest)

-- Into an output of this length.
unfoldable pub read : ℕ → PipeState → Result (List ℕ) VfsError × PipeState
read len p =
    let (bytes, rest) = pop_bytes len p.buffer in
    let q = record p { buffer = rest } in
    if is_empty bytes && ltb 0 p.writers then (err would_block, q) else (ok bytes, q)

-- The loop over the input: the number of bytes written, and the buffer.
unfoldable pub push_bytes : ℕ → List ℕ → List ℕ → ℕ × List ℕ
push_bytes capacity [] buffer = (0, buffer)
push_bytes capacity (byte ∷ input) buffer =
    let (n, rest) = push_bytes capacity input (buffer ++ (byte ∷ [])) in
    if length buffer == capacity then (0, buffer) else (suc n, rest)

unfoldable pub write : List ℕ → PipeState → Result ℕ VfsError × PipeState
write input p =
    let (written, buffer) = push_bytes p.capacity input p.buffer in
    let q = record p { buffer = buffer } in
    if is_empty input
    then (ok 0, p)
    else if p.readers == 0
    then (err broken_pipe, p)
    else if written == 0 && not (is_empty input)
    then (err would_block, q)
    else (ok written, q)

unfoldable pub poll_read : PipeState → Bool
poll_read p = not (is_empty p.buffer) || p.writers == 0

unfoldable pub poll_write : PipeState → Bool
poll_write p = ltb 0 p.readers && ltb (length p.buffer) p.capacity

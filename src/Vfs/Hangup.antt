-- ===== src/Vfs/Hangup.antt =====
-- The end of file of a pipe and its broken pipe, kernel/src/fs/vfs.rs, follow the open files.
use ristux.Common.{
  ℕ, suc, ◌≤◌, ◌==◌, ◌≡◌, ◌≢◌, ◌↔◌, ◌∙◌, refl, sym, ap, ◌⊎◌, inl, inr, ltb, if◌then◌else◌, Option,
  none, some, List, [], ◌∷◌, get_elem?, arith,
}
use ristux.Common.Results.{ok, err}
use ristux.Vfs.{
  would_block, broken_pipe, OpenHandle, node, pipe_read, pipe_write, pty_master, pty_slave,
  ext2_file, ext2_dir, PipeState, Vfs,
}
use ristux.Vfs.Pipe.{pop_bytes, read, write}
use ristux.Vfs.Open.{handle_at, read_pipe, write_pipe}
use ristux.Vfs.Counts.{reader, writer, pipe_count, pipe_ends, on_pipe, held, IsCounted}
use ristux.Vfs.Counts.Changes.{held-positive, count_at-found, found_pipe}

-- No open file is this handle.
abbrev pub NoFile : OpenHandle → Vfs → Type 0
NoFile handle v = (fd : ℕ) → handle_at v.open_files fd ≢ some handle

same_index : (k i : ℕ) (n : ℕ) → ((if k == i then n else 0) ≡ 0) ⊎ (k ≡ i)
same_index k i n = ground arith

writer_or_none : (k : ℕ) (h : OpenHandle) → (on_pipe writer k h ≡ 0) ⊎ (h ≡ pipe_write k)
writer_or_none k (pipe_read i) = inl (ground arith)
writer_or_none k (pipe_write i) = elim (same_index i k 1) [
  | inl e ↦ inl e
  | inr e ↦ inr (ap pipe_write e)
]
writer_or_none k (pty_master i rights) = inl refl
writer_or_none k (pty_slave i rights) = inl refl
writer_or_none k (node i offset rights) = inl refl
writer_or_none k (ext2_file path offset rights) = inl refl
writer_or_none k (ext2_dir path offset) = inl refl

reader_or_none : (k : ℕ) (h : OpenHandle) → (on_pipe reader k h ≡ 0) ⊎ (h ≡ pipe_read k)
reader_or_none k (pipe_write i) = inl (ground arith)
reader_or_none k (pipe_read i) = elim (same_index i k 1) [
  | inl e ↦ inl e
  | inr e ↦ inr (ap pipe_read e)
]
reader_or_none k (pty_master i rights) = inl refl
reader_or_none k (pty_slave i rights) = inl refl
reader_or_none k (node i offset rights) = inl refl
reader_or_none k (ext2_file path offset rights) = inl refl
reader_or_none k (ext2_dir path offset) = inl refl

-- If a handle that counts is not open, nothing is counted.
held-none :
    (f : OpenHandle → ℕ) (handle : OpenHandle) (slots : List (Option OpenHandle))
    → ((h : OpenHandle) → (f h ≡ 0) ⊎ (h ≡ handle))
    → ((fd : ℕ) → handle_at slots fd ≢ some handle)
    → held f slots ≡ 0
unfolding held
held-none f handle [] c h = refl
held-none f handle (none ∷ slots) c h = held-none f handle slots c (λ fd. h (suc fd))
held-none f handle (some other ∷ slots) c h = elim (c other) [
  | inl e ↦ omega (arith, e, held-none f handle slots c (λ fd. h (suc fd)))
  | inr e ↦ absurd (h 0 (ap some e))
]

self : (k : ℕ) → 1 ≤ (if k == k then 1 else 0)
self k = ground arith

list_cases : (xs : List ℕ) → (xs ≡ []) ⊎ ((x : ℕ) × (rest : List ℕ) × (xs ≡ x ∷ rest))
list_cases [] = inl refl
list_cases (x ∷ rest) = inr (x, rest, refl)

-- What a read into a non-empty output says.
read_of_empty :
    (n : ℕ) (p : PipeState)
    → p.buffer ≡ []
    → (read (suc n) p).0 ≡ (if ltb 0 p.writers then err would_block else ok [])
unfolding read pop_bytes
read_of_empty n p e = rw e (ground arith)

read_of_bytes :
    (n x : ℕ) (rest : List ℕ) (p : PipeState)
    → p.buffer ≡ x ∷ rest
    → (read (suc n) p).0 ≡ ok (x ∷ (pop_bytes n rest).0)
unfolding read pop_bytes
read_of_bytes n x rest p e = rw e refl

read_end_of_file :
    (n : ℕ) (p : PipeState) → ((read (suc n) p).0 ≡ ok []) ↔ ((p.buffer ≡ []) × (p.writers ≡ 0))
read_end_of_file n p = elim (list_cases p.buffer) [
  | inl e ↦ (
    (λ h. (e, ground (arith, read_of_empty n p e, h))),
    (λ h. ground (arith, read_of_empty n p e, h.1)),
  )
  | inr (x, rest, e) ↦
      ((λ h. absurd (cc (read_of_bytes n x rest p e, h))), (λ h. absurd (cc (e, h.0))))
]

write_broken :
    (byte : ℕ) (input : List ℕ) (p : PipeState)
    → ((write (byte ∷ input) p).0 ≡ err broken_pipe) ↔ (p.readers ≡ 0)
unfolding write
write_broken byte input p = (λ h. ground (arith, h), λ h. rw h refl)

abbrev pub buffer_of : Option PipeState → List ℕ
buffer_of none = []
buffer_of (some p) = p.buffer

abbrev pub buffer_at : ℕ → Vfs → List ℕ
buffer_at k v = buffer_of (get_elem? v.pipes k)

no_writers : (v : Vfs) (k : ℕ) → IsCounted v → (pipe_ends writer k v ≡ 0) ↔ NoFile (pipe_write k) v
no_writers v k c = (
  λ h fd e. absurd (
      omega (
        arith,
        h,
        c.pipes_count writer k,
        held-positive (on_pipe writer k) v.open_files fd (pipe_write k) e,
        self k,
      )),
  λ h.
      c.pipes_count writer k
      ∙ held-none (on_pipe writer k) (pipe_write k) v.open_files (writer_or_none k) h,
)

no_readers : (v : Vfs) (k : ℕ) → IsCounted v → (pipe_ends reader k v ≡ 0) ↔ NoFile (pipe_read k) v
no_readers v k c = (
  λ h fd e. absurd (
      omega (
        arith,
        h,
        c.pipes_count reader k,
        held-positive (on_pipe reader k) v.open_files fd (pipe_read k) e,
        self k,
      )),
  λ h.
      c.pipes_count reader k
      ∙ held-none (on_pipe reader k) (pipe_read k) v.open_files (reader_or_none k) h,
)

-- If the counts are right and a descriptor is the read end of a pipe: a read of one byte or more from
-- this pipe reports the end of file (no byte, no error) just when the buffer is empty and no
-- descriptor is a write end of the pipe.
pub read_pipe-end_of_file :
    (v : Vfs) (fd k n : ℕ)
    → IsCounted v
    → handle_at v.open_files fd ≡ some (pipe_read k)
    → ((read_pipe k (suc n) v).0 ≡ ok []) ↔ ((buffer_at k v ≡ []) × NoFile (pipe_write k) v)
unfolding read_pipe pipe_ends
read_pipe-end_of_file v fd k n c h =
    let (p, e, m) = found_pipe reader v k fd (pipe_read k) c h (self k) in
    let w = count_at-found (pipe_count writer) v.pipes k p e in
    let (to, from) = read_end_of_file n p in
    let (only, whenever) = no_writers v k c in
    rw (read_pipe, e)
      ((λ g. ((to g).0, only (w ∙ (to g).1))), λ g. from (g.0, sym w ∙ whenever g.1))

-- If the counts are right and a descriptor is the write end of a pipe: a write of one byte or more to
-- this pipe fails with `BrokenPipe` just when no descriptor is a read end of the pipe.
pub write_pipe-broken :
    (v : Vfs) (fd k byte : ℕ) (input : List ℕ)
    → IsCounted v
    → handle_at v.open_files fd ≡ some (pipe_write k)
    → ((write_pipe k (byte ∷ input) v).0 ≡ err broken_pipe) ↔ NoFile (pipe_read k) v
unfolding write_pipe pipe_ends
write_pipe-broken v fd k byte input c h =
    let (p, e, m) = found_pipe writer v k fd (pipe_write k) c h (self k) in
    let w = count_at-found (pipe_count reader) v.pipes k p e in
    let (to, from) = write_broken byte input p in
    let (only, whenever) = no_readers v k c in
    rw (write_pipe, e) ((λ g. only (w ∙ to g)), λ g. from (sym w ∙ whenever g))

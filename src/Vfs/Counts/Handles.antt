-- ===== src/Vfs/Counts/Handles.antt =====
-- Every handle in a counted table can be retained and released.
use ristux.Common.{ℕ, ◌≤◌, ◌≡◌, refl, Option, some, List, arith}
use ristux.Vfs.{
  OpenHandle, node, pipe_read, pipe_write, pty_master, pty_slave, ext2_file, ext2_dir, PipeState,
  PtyState, Vfs,
}
use ristux.Vfs.Pipe.{add_reader, add_writer, close_reader, close_writer}
use ristux.Vfs.Open.{
  add_master, add_slave, close_master, close_slave, handle_at, retain_handle, release_handle,
}
use ristux.Vfs.Counts.{
  Role, reader, writer, master, slave, pipe_count, pty_count, pipe_ends, pty_ends, on_pipe, on_pty,
  IsCounted,
}
use ristux.Vfs.Counts.Changes.{
  More, OneMore, with_pipe-found, with_pty-found, found_pipe, found_pty, self, nothing_more,
  pipe-more, pipe-less, pty-more, pty-less,
}

reader_more : (p : PipeState) → OneMore pipe_count reader p (add_reader p)
reader_more p reader = refl
reader_more p writer = omega arith
reader_more p master = refl
reader_more p slave = refl

reader_less : (p : PipeState) → 1 ≤ p.readers → OneMore pipe_count reader (close_reader p) p
reader_less p h reader = omega (arith, h)
reader_less p h writer = omega arith
reader_less p h master = refl
reader_less p h slave = refl

writer_more : (p : PipeState) → OneMore pipe_count writer p (add_writer p)
writer_more p reader = omega arith
writer_more p writer = refl
writer_more p master = refl
writer_more p slave = refl

writer_less : (p : PipeState) → 1 ≤ p.writers → OneMore pipe_count writer (close_writer p) p
writer_less p h reader = omega arith
writer_less p h writer = omega (arith, h)
writer_less p h master = refl
writer_less p h slave = refl

master_more : (p : PtyState) → OneMore pty_count master p (add_master p)
master_more p reader = refl
master_more p writer = refl
master_more p master = refl
master_more p slave = omega arith

master_less : (p : PtyState) → 1 ≤ p.masters → OneMore pty_count master (close_master p) p
master_less p h reader = refl
master_less p h writer = refl
master_less p h master = omega (arith, h)
master_less p h slave = omega arith

slave_more : (p : PtyState) → OneMore pty_count slave p (add_slave p)
slave_more p reader = refl
slave_more p writer = refl
slave_more p master = omega arith
slave_more p slave = refl

slave_less : (p : PtyState) → 1 ≤ p.slaves → OneMore pty_count slave (close_slave p) p
slave_less p h reader = refl
slave_less p h writer = refl
slave_less p h master = omega arith
slave_less p h slave = omega (arith, h)

abbrev pub Retained : OpenHandle → Vfs → Type 0
Retained handle v =
    (w : Vfs) × (retain_handle handle v ≡ some w) × (w.open_files ≡ v.open_files) × More handle v w

-- After the slot has been emptied.
abbrev pub Released : OpenHandle → List (Option OpenHandle) → Vfs → Type 0
Released handle slots v =
    (w : Vfs) × (release_handle handle (record v { open_files = slots }) ≡ some w)
    × (w.open_files ≡ slots)
    × More handle w v

no_end :
    (v : Vfs) (handle : OpenHandle)
    → ((role : Role) (i : ℕ) → on_pipe role i handle ≡ 0)
    → ((role : Role) (i : ℕ) → on_pty role i handle ≡ 0)
    → More handle v v
no_end v handle h g = record {
  pipe_more = λ role i. omega (arith, h role i);
  pty_more = λ role i. omega (arith, g role i);
}

pub retain_handle-Retained :
    (v : Vfs) (fd : ℕ) (handle : OpenHandle)
    → IsCounted v
    → handle_at v.open_files fd ≡ some handle
    → Retained handle v
unfolding pipe_ends pty_ends
retain_handle-Retained v fd (pipe_read k) c h =
    let (p, e, n) = found_pipe reader v k fd (pipe_read k) c h (self k 1 (omega arith)) in
    (
      _,
      with_pipe-found add_reader k v p e,
      refl,
      record {
        pipe_more = pipe-more reader k v p (add_reader p) e (reader_more p);
        pty_more = λ role i. nothing_more (pty_ends role i v);
      },
    )
retain_handle-Retained v fd (pipe_write k) c h =
    let (p, e, n) = found_pipe writer v k fd (pipe_write k) c h (self k 1 (omega arith)) in
    (
      _,
      with_pipe-found add_writer k v p e,
      refl,
      record {
        pipe_more = pipe-more writer k v p (add_writer p) e (writer_more p);
        pty_more = λ role i. nothing_more (pty_ends role i v);
      },
    )
retain_handle-Retained v fd (pty_master k rights) c h =
    let (p, e, n) = found_pty master v k fd (pty_master k rights) c h (self k 1 (omega arith)) in
    (
      _,
      with_pty-found add_master k v p e,
      refl,
      record {
        pty_more = pty-more master k v p (add_master p) e (master_more p);
        pipe_more = λ role i. nothing_more (pipe_ends role i v);
      },
    )
retain_handle-Retained v fd (pty_slave k rights) c h =
    let (p, e, n) = found_pty slave v k fd (pty_slave k rights) c h (self k 1 (omega arith)) in
    (
      _,
      with_pty-found add_slave k v p e,
      refl,
      record {
        pty_more = pty-more slave k v p (add_slave p) e (slave_more p);
        pipe_more = λ role i. nothing_more (pipe_ends role i v);
      },
    )
retain_handle-Retained v fd (node n offset rights) c h =
    (v, refl, refl, no_end v (node n offset rights) (λ role i. refl) (λ role i. refl))
retain_handle-Retained v fd (ext2_file path offset rights) c h =
    (v, refl, refl, no_end v (ext2_file path offset rights) (λ role i. refl) (λ role i. refl))
retain_handle-Retained v fd (ext2_dir path offset) c h =
    (v, refl, refl, no_end v (ext2_dir path offset) (λ role i. refl) (λ role i. refl))

pub release_handle-Released :
    (v : Vfs) (slots : List (Option OpenHandle)) (fd : ℕ) (handle : OpenHandle)
    → IsCounted v
    → handle_at v.open_files fd ≡ some handle
    → Released handle slots v
unfolding pipe_ends pty_ends
release_handle-Released v slots fd (pipe_read k) c h =
    let (p, e, n) = found_pipe reader v k fd (pipe_read k) c h (self k 1 (omega arith)) in
    (
      _,
      with_pipe-found close_reader k (record v { open_files = slots }) p e,
      refl,
      record {
        pipe_more = pipe-less reader k v p (close_reader p) e (reader_less p n);
        pty_more = λ role i. nothing_more (pty_ends role i v);
      },
    )
release_handle-Released v slots fd (pipe_write k) c h =
    let (p, e, n) = found_pipe writer v k fd (pipe_write k) c h (self k 1 (omega arith)) in
    (
      _,
      with_pipe-found close_writer k (record v { open_files = slots }) p e,
      refl,
      record {
        pipe_more = pipe-less writer k v p (close_writer p) e (writer_less p n);
        pty_more = λ role i. nothing_more (pty_ends role i v);
      },
    )
release_handle-Released v slots fd (pty_master k rights) c h =
    let (p, e, n) = found_pty master v k fd (pty_master k rights) c h (self k 1 (omega arith)) in
    (
      _,
      with_pty-found close_master k (record v { open_files = slots }) p e,
      refl,
      record {
        pty_more = pty-less master k v p (close_master p) e (master_less p n);
        pipe_more = λ role i. nothing_more (pipe_ends role i v);
      },
    )
release_handle-Released v slots fd (pty_slave k rights) c h =
    let (p, e, n) = found_pty slave v k fd (pty_slave k rights) c h (self k 1 (omega arith)) in
    (
      _,
      with_pty-found close_slave k (record v { open_files = slots }) p e,
      refl,
      record {
        pty_more = pty-less slave k v p (close_slave p) e (slave_less p n);
        pipe_more = λ role i. nothing_more (pipe_ends role i v);
      },
    )
release_handle-Released v slots fd (node n offset rights) c h = (
  _,
  refl,
  refl,
  record {
    pipe_more = λ role i. nothing_more (pipe_ends role i v);
    pty_more = λ role i. nothing_more (pty_ends role i v);
  },
)
release_handle-Released v slots fd (ext2_file path offset rights) c h = (
  _,
  refl,
  refl,
  record {
    pipe_more = λ role i. nothing_more (pipe_ends role i v);
    pty_more = λ role i. nothing_more (pty_ends role i v);
  },
)
release_handle-Released v slots fd (ext2_dir path offset) c h = (
  _,
  refl,
  refl,
  record {
    pipe_more = λ role i. nothing_more (pipe_ends role i v);
    pty_more = λ role i. nothing_more (pty_ends role i v);
  },
)

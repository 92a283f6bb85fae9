-- ===== src/Lib.antt =====
-- A model of the core logic of the ristux kernel, with its correctness theorems.
--
-- Parts, and the files that model them:
--   Common, Common/*: Boolean tests, lists, results, machine words and single bits, for all others.
--   Tcp, Tcp/*: kernel/src/net/tcp.rs. Tcp has the data (`TcpSocket`, `TcpStack`, packets and queue
--   entries, field by field); Tcp/Segment the wire format; Tcp/Socket the functions on one socket;
--   Tcp/Retransmit the retransmission queue and the timer poll; Tcp/Stack the calls of the socket
--   layer; Tcp/Packets `handle_packet`. Tcp/Invariant proves the invariant of the stack over every
--   history of these, and Tcp/Delivery what one endpoint sends and another handles.
--   Heap, Heap/*: kernel/src/memory/heap.rs. Heap has the allocator; Heap/Alloc, Heap/Dealloc and
--   Heap/Coalesced prove one operation each; Heap/Partition and Heap/Tidy every history.
--   Time, Time/*: kernel/src/time/mod.rs: Time/Timers, Time/Stamps and Time/Calendar prove its parts.
--   Tty, Tty/*: kernel/src/tty/mod.rs: Tty has the terminal and its input, Tty/Reader the reads and the
--   parked processes, Tty/Dispatch the functions that the kernel calls; Tty/Lines proves canonical
--   input against a line editor, Tty/Waiters what happens to parked processes.
--   Refcount, Refcount/*: kernel/src/memory/refcount.rs: Refcount/Counts reads the sparse table as one
--   count per frame, Refcount/Operations proves the operations on it.
--   Process, Process/*: kernel/src/process/mod.rs. Process has the data; Process/Signals the
--   pending signals; Process/Table job control, waiting and reaping, with the run queue of
--   kernel/src/sched/mod.rs; Process/Exit the end of a process and `signal`, which call each
--   other. Process/Becomes says how a table may change, Process/Exit/Total and Process/Exit/After
--   what an end leaves, Process/Group what an exit of all threads does. Process/Fds has the
--   descriptor table of a process; Process/Fds/Calls joins it with the open files of Vfs, and
--   Process/Fds/Duplicated is the copying of descriptors by a fork. Process/Ids has the calls that
--   set user and group numbers.
--   Frames, Frames/*: kernel/src/memory/frame_allocator.rs: Frames/Bitmap and Frames/Counts read the
--   bitmap as one bit per frame, Frames/Ranges and Frames/Init say what init leaves, Frames/Held which
--   frames callers hold.
--   AddressSpace, AddressSpace/*: kernel/src/memory/address_space.rs, the lazy mappings and the search
--   for an address. AddressSpace/Lazy has the loops over the mappings, AddressSpace/Place the search.
--   Both loops are one function with the body as an argument, which
--   AddressSpace/Cuts and AddressSpace/Pieces prove right for any body; AddressSpace/Cover counts the
--   mappings of a page, AddressSpace/Ranges says when a range is free and when it is taken.
--   Initrd, Initrd/*: kernel/src/initrd/mod.rs and the part of tools/build_rootfs.rs that writes the
--   archive. Initrd/Bytes proves the fields and slices, Initrd/Written one file.
--   Vfs, Vfs/*: kernel/src/fs/vfs.rs. Vfs/Open has the open-file table, Vfs/Pipe the pipes; Vfs/Counts
--   proves the counts of pipe and terminal ends, Vfs/Stream and Vfs/Hangup what a pipe delivers.
--   Security, Security/*: kernel/src/security/mod.rs. Signal, Signal/*: kernel/src/signal/mod.rs.
--
-- A function that takes `&mut self` returns the new state, beside its result if it has one. Names are
-- the source's, but for reserved words (`open` is `open_socket`). Machine words are natural numbers:
-- u32 arithmetic wraps by `% 2 ^ 32` as written, u64 deadlines saturate, and the ranges are in the
-- predicates `SocketIsValid` and `PacketIsValid`. Flags are tested by the bitwise `&` of the source.
-- The tick counter `monotonic_ticks` is an argument `now`; locks, printing and the self-tests are left
-- out. The carry loop of the checksum is on fuel, with four rounds, which are enough for any
-- 32-bit sum. The recursion of `exit_with_reason`, which through `signal` may end further processes, is
-- on fuel too: four for each process and two more are enough, since each call ends a live process or
-- adopts a child. The loops over the lazy mappings visit each at most three times. All others recur
-- on a list or on the number of rounds that are left.
-- Whether the heap has room for a chunk of reference counts is an argument of the functions on them.
-- The heap's chain of node pointers is the list of its nodes: that clients leave the headers alone is
-- assumed. A `Layout`'s alignment is a power of two.
--
-- An `Arc` of an address space is a number; what address spaces answer is in the record `Spaces`, and
-- whether the allocator has room in `Room` or in an argument, but that the vectors of process numbers
-- that an exit gathers get their memory is assumed. Closed descriptors and sockets at an exit are
-- recorded as the arguments of the calls.
--
-- Not modelled: exec, fork of address spaces and sockets, memory mappings, timed waits, paths, nodes
-- and mounts of the file system, ext2, keyboard layouts, the other network
-- protocols, schedulers and page tables, which the parts above do not use; hardware access, assembly,
-- user programs and host tools, which are outside the kernel's logic.
pub mod Common
pub mod Tcp
pub mod Signal
pub mod Security
pub mod Heap
pub mod Frames
pub mod Initrd
pub mod AddressSpace
pub mod Time
pub mod Tty
pub mod Refcount
pub mod Process
pub mod Vfs

-- ===== src/Heap.antt =====
-- The first-fit kernel heap of kernel/src/memory/heap.rs. The chain of `FreeBlock` nodes from `head`
-- is the list of the nodes in chain order, each with its address and the `size` word of its header;
-- the headers of blocks that are handed out are the function `size_at`. A null pointer is `none`.
-- An alignment is a power of two, as `Layout` has it, so `align_up` rounds up to a multiple.
pub mod Place
pub mod Alloc
pub mod Dealloc
pub mod Partition
pub mod Coalesced
pub mod Tidy
mod Tests
use ristux.Common.{
  ℕ, ◌+◌, ◌-◌, ◌*◌, ◌/◌, Bool, true, false, ◌==◌, ◌&&◌, ltb, leb, Option, none, some, List, [], ◌∷◌,
  if◌then◌else◌,
}

-- `size_of::<FreeBlock>()` and `align_of::<FreeBlock>()` on x86_64.
abbrev pub header_size : ℕ
header_size = 16

abbrev pub header_align : ℕ
header_align = 8

pub record FreeBlock : Type 0 where
  pub addr : ℕ
  pub size : ℕ

pub record LinkedListAllocator : Type 0 where
  pub free : List FreeBlock
  pub size_at : ℕ → ℕ
  pub start : ℕ
  pub end : ℕ
  pub initialized : Bool

pub record Layout : Type 0 where
  pub size : ℕ
  pub align : ℕ

unfoldable pub align_up : ℕ → ℕ → ℕ
align_up value align = (value + align - 1) / align * align

-- Where the header of an allocation goes in a block at `block_start`: so that the payload is aligned
-- and what is left before it is nothing or a whole header.
unfoldable pub alloc_start : ℕ → ℕ → ℕ
alloc_start block_start align =
    let at = align_up (block_start + header_size) align - header_size in
    if ltb block_start at && ltb (at - block_start) header_size
    then align_up (block_start + header_size * 2) align - header_size
    else at

-- A block handed out, and the free list without it.
pub record Taken : Type 0 where
  pub block : FreeBlock
  pub rest : List FreeBlock

abbrev pub push_block : Bool → FreeBlock → List FreeBlock → List FreeBlock
push_block true b bs = b ∷ bs
push_block false b bs = bs

-- The body of the loop for a block that is large enough: `at` is the allocation's header.
unfoldable pub split : FreeBlock → ℕ → ℕ → List FreeBlock → Taken
split current at alloc_size next =
    let prefix = at - current.addr in
    let remainder = current.size - (prefix + alloc_size) in
    let keeps = leb header_size remainder in
    let used_size = if keeps then alloc_size else alloc_size + remainder in
    record {
      block = record { addr = at; size = used_size };
      rest =
          push_block (leb header_size prefix) (record { addr = current.addr; size = prefix })
            (push_block keeps (record { addr = at + used_size; size = remainder }) next);
    }

-- The loop: `prev` is the part of the list that the recursion has passed.
unfoldable pub take_first_fit : ℕ → ℕ → List FreeBlock → Option Taken
take_first_fit alloc_size align [] = none
take_first_fit alloc_size align (current ∷ next) =
    let at = alloc_start current.addr align in
    let later : Option Taken = elim (take_first_fit alloc_size align next) [
      | none ↦ none
      | some t ↦ some (record t { rest = current ∷ t.rest })
    ] in
    if leb (at - current.addr + alloc_size) current.size
    then some (split current at alloc_size next)
    else later

abbrev pub update : (ℕ → ℕ) → ℕ → ℕ → ℕ → ℕ
update f a v x = if x == a then v else f x

unfoldable pub alloc_from_free_list : Layout → LinkedListAllocator → Option ℕ × LinkedListAllocator
alloc_from_free_list layout h =
    let alloc_size = align_up (header_size + layout.size) header_align in
    elim (take_first_fit alloc_size layout.align h.free) [
      | none ↦ (none, h)
      | some t ↦ (
        some (t.block.addr + header_size),
        record h { free = t.rest; size_at = update h.size_at t.block.addr t.block.size },
      )
    ]

unfoldable pub alloc : Layout → LinkedListAllocator → Option ℕ × LinkedListAllocator
alloc layout h = if h.initialized then alloc_from_free_list layout h else (none, h)

-- The walk of `dealloc_to_free_list` behind the head.
unfoldable pub insert_after : FreeBlock → List FreeBlock → List FreeBlock
insert_after b [] = b ∷ []
insert_after b (next ∷ rest) =
    let later = insert_after b rest in
    if ltb next.addr b.addr then next ∷ later else b ∷ next ∷ rest

unfoldable pub insert_free : FreeBlock → List FreeBlock → List FreeBlock
insert_free b [] = b ∷ []
insert_free b (head ∷ rest) =
    if ltb b.addr head.addr then b ∷ head ∷ rest else head ∷ insert_after b rest

-- `coalesce_head` from the node `current` on.
unfoldable pub coalesce_from : FreeBlock → List FreeBlock → List FreeBlock
coalesce_from current [] = current ∷ []
coalesce_from current (next ∷ rest) =
    let merged = coalesce_from (record current { size = current.size + next.size }) rest in
    let apart = current ∷ coalesce_from next rest in
    if current.addr + current.size == next.addr then merged else apart

unfoldable pub coalesce_head : List FreeBlock → List FreeBlock
coalesce_head [] = []
coalesce_head (head ∷ rest) = coalesce_from head rest

unfoldable pub dealloc_to_free_list : ℕ → LinkedListAllocator → LinkedListAllocator
dealloc_to_free_list ptr h =
    let at = ptr - header_size in
    let block : FreeBlock = record { addr = at; size = h.size_at at } in
    record h { free = coalesce_head (insert_free block h.free) }

unfoldable pub dealloc : Option ℕ → LinkedListAllocator → LinkedListAllocator
dealloc none h = h
dealloc (some ptr) h = if h.initialized then dealloc_to_free_list ptr h else h

unfoldable pub free_bytes : List FreeBlock → ℕ
free_bytes [] = 0
free_bytes (b ∷ bs) = b.size + free_bytes bs

unfoldable pub used_bytes : LinkedListAllocator → ℕ
used_bytes h = h.end - h.start - free_bytes h.free

-- `init` of a heap of `size` bytes at `start`; the header words are those of the zeroed space.
unfoldable pub init : ℕ → ℕ → LinkedListAllocator
init start size = record {
  free = record { addr = start; size = size } ∷ [];
  size_at = λ _. 0;
  start = start;
  end = start + size;
  initialized = true;
}

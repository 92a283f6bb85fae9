-- ===== src/AddressSpace.antt =====
-- kernel/src/memory/address_space.rs: the lazy mappings of an address space, and the choice of an
-- address for a new one. The page tables are not in the record. `room n` is whether the vector of
-- lazy mappings gets memory for n entries.
pub mod Lazy
pub mod Place
pub mod Cuts
pub mod Cover
pub mod Pieces
pub mod Ranges
pub mod Search
pub mod Removed
pub mod Protected
pub mod Mapped
mod Tests
use ristux.Common.{
  ℕ, zero, suc, ◌+◌, ◌-◌, ◌*◌, ◌/◌, min, Bool, true, false, ◌&&◌, ◌||◌, not, ◌==◌, leb, ltb,
  if◌then◌else◌, Option, none, some, List, [], ◌∷◌, ◌++◌, length, any, put_last, u64_max,
}
use ristux.Common.Results.{Result, ok, err}
use ristux.Refcount.{frame_size}
use ristux.Frames.{align_down, max}

abbrev pub user_mmap_start : ℕ
user_mmap_start = 0x50000000

abbrev pub user_mmap_end : ℕ
user_mmap_end = 0x58000000

abbrev pub user_stack_guard : ℕ
user_stack_guard = 0x70000000

pub data UserProtection : Type 0 where
  no_access read_only read_execute read_write : UserProtection

pub data UserAccess : Type 0 where
  read write execute : UserAccess

pub data PagingError : Type 0 where
  out_of_frames already_mapped not_mapped huge_page refcount_overflow refcount_unavailable :
      PagingError

pub record LazyMapping : Type 0 where
  pub start : ℕ
  pub end : ℕ
  pub protection : UserProtection

pub record AddressSpace : Type 0 where
  pub user_mappings : List (ℕ × ℕ)
  pub user_protections : List (ℕ × UserProtection)
  pub lazy_mappings : List LazyMapping
  pub heap_break : ℕ
  pub stack_bottom : ℕ
  pub stack_top : ℕ
  pub mmap_next : ℕ

abbrev pub allows_read : UserProtection → Bool
allows_read no_access = false
allows_read read_only = true
allows_read read_execute = true
allows_read read_write = true

abbrev pub allows_write : UserProtection → Bool
allows_write no_access = false
allows_write read_only = false
allows_write read_execute = false
allows_write read_write = true

abbrev pub allows_execute : UserProtection → Bool
allows_execute no_access = false
allows_execute read_only = false
allows_execute read_execute = true
allows_execute read_write = false

abbrev pub allows_access : UserProtection → UserAccess → Bool
allows_access p read = allows_read p
allows_access p write = allows_write p
allows_access p execute = allows_execute p

-- `checked_add` and `checked_align_up`.
abbrev pub checked_add : ℕ → ℕ → Option ℕ
checked_add a b = if leb (a + b) u64_max then some (a + b) else none

abbrev pub checked_align_up : ℕ → Option ℕ
checked_align_up addr =
    if leb (addr + (frame_size - 1)) u64_max
    then some (align_down (addr + (frame_size - 1)))
    else none

abbrev pub align_up : ℕ → ℕ
align_up addr = align_down (addr + (frame_size - 1))

unfoldable pub is_user_mapped : ℕ → AddressSpace → Bool
is_user_mapped page s = any (λ (m : ℕ × ℕ). m.0 == page) s.user_mappings

abbrev pub protection_in : ℕ → List (ℕ × UserProtection) → Option UserProtection
protection_in page [] = none
protection_in page ((virt, p) ∷ ps) = if virt == page then some p else protection_in page ps

unfoldable pub protection_for_page : ℕ → AddressSpace → Option UserProtection
protection_for_page page s = protection_in page s.user_protections

abbrev pub holds : ℕ → LazyMapping → Bool
holds page m = leb m.start page && ltb page m.end

abbrev pub lazy_protection_in : ℕ → List LazyMapping → Option UserProtection
lazy_protection_in page [] = none
lazy_protection_in page (m ∷ ms) =
    if holds page m then some m.protection else lazy_protection_in page ms

unfoldable pub lazy_protection_for_page : ℕ → AddressSpace → Option UserProtection
lazy_protection_for_page page s = lazy_protection_in page s.lazy_mappings

unfoldable pub lazy_range_overlaps : ℕ → ℕ → List LazyMapping → Bool
lazy_range_overlaps start end ms = any (λ m. ltb start m.end && ltb m.start end) ms

-- ===== src/AddressSpace/Tests.antt =====
-- An address space with one lazy mapping of four pages, and the theorems of
-- kernel/src/memory/address_space.rs there.
use ristux.Common.{◌≡◌, refl, true, false, some, none, [], ◌∷◌, List, arith}
use ristux.Common.Results.{ok, err}
use ristux.AddressSpace.{
  AddressSpace, LazyMapping, read_only, read_write, out_of_frames, is_user_mapped,
  lazy_range_overlaps,
}
use ristux.AddressSpace.Lazy.{cut_from, remove_lazy_range, protect_lazy_range}
use ristux.AddressSpace.Place.{
  map_anonymous, map_at, reserve_mmap_addr, find_free_range, find_from, range_available,
  pages_unmapped, can_grow_stack,
}
use ristux.AddressSpace.Cover.{IsDisjoint}
use ristux.AddressSpace.Pieces.{Leaves}
use ristux.AddressSpace.Removed.{remove_lazy_range-outcome}
use ristux.AddressSpace.Protected.{replaced, protect_lazy_range-outcome}
use ristux.AddressSpace.Search.{Reserves, reserve_mmap_addr-Reserves}
use ristux.AddressSpace.Mapped.{MapOutcome, map_anonymous-outcome}

abbrev four_pages : List LazyMapping
four_pages = record { start = 0x50000000; end = 0x50004000; protection = read_write } ∷ []

four_pages-IsDisjoint : IsDisjoint four_pages
four_pages-IsDisjoint page = ground arith

-- A page behind them is mapped.
abbrev space : AddressSpace
space = record {
  user_mappings = (0x50005000, 8192) ∷ [];
  user_protections = (0x50005000, read_write) ∷ [];
  lazy_mappings = four_pages;
  heap_break = 0x60000000;
  stack_bottom = 0x70000000;
  stack_top = 0x70100000;
  mmap_next = 0x50000000;
}

-- A hole in the middle, with memory for the new piece and without.
hole :
    remove_lazy_range (λ n. true) 0x50001000 0x50002000 four_pages
    ≡ some (
      ok tt,
      record { start = 0x50000000; end = 0x50001000; protection = read_write }
          ∷ record { start = 0x50002000; end = 0x50004000; protection = read_write }
          ∷ [],
    )
unfolding remove_lazy_range cut_from
hole = refl

no_hole :
    remove_lazy_range (λ n. false) 0x50001000 0x50002000 four_pages
    ≡ some (err out_of_frames, four_pages)
unfolding remove_lazy_range cut_from
no_hole = refl

first_fit : (map_anonymous (λ n. true) 0 5000 read_only space).0 ≡ ok 0x50006000
unfolding map_anonymous map_at reserve_mmap_addr find_free_range find_from range_available
    pages_unmapped is_user_mapped lazy_range_overlaps
first_fit = refl

guard_page : can_grow_stack 0x70000fff space ≡ false
unfolding can_grow_stack
guard_page = refl

remove_lazy_range-outcome_example :
    Leaves
      (λ n. true)
      (λ o. none)
      0x50001000
      0x50002000
      four_pages
      (remove_lazy_range (λ n. true) 0x50001000 0x50002000 four_pages)
remove_lazy_range-outcome_example =
    remove_lazy_range-outcome (λ n. true) 0x50001000 0x50002000 four_pages (omega arith)
      four_pages-IsDisjoint

protect_lazy_range-outcome_example :
    Leaves
      (λ n. true)
      (replaced read_only)
      0x50001000
      0x50002000
      four_pages
      (protect_lazy_range (λ n. true) read_only 0x50001000 0x50002000 four_pages)
protect_lazy_range-outcome_example =
    protect_lazy_range-outcome (λ n. true) read_only 0x50001000 0x50002000 four_pages (omega arith)
      four_pages-IsDisjoint

reserve_mmap_addr-Reserves_example : Reserves 8192 space (reserve_mmap_addr 0x50000000 8192 space)
reserve_mmap_addr-Reserves_example = reserve_mmap_addr-Reserves 0x50000000 8192 space

map_anonymous-outcome_example :
    MapOutcome (λ n. true) 5000 read_only space (map_anonymous (λ n. true) 0 5000 read_only space)
map_anonymous-outcome_example =
    map_anonymous-outcome (λ n. true) 0 5000 read_only space four_pages-IsDisjoint

-- ===== src/AddressSpace/Cover.antt =====
-- How often the lazy mappings of kernel/src/memory/address_space.rs cover a page, each time with a
-- weight for the protection.
use ristux.Common.{
  ℕ, ◌≤◌, ◌≡◌, ◌∙◌, refl, sym, ap, ◌==◌, if◌then◌else◌, Bool-cases, inl, inr, Option, none, some,
  List, [], ◌∷◌, arith,
}
use ristux.AddressSpace.{
  LazyMapping, UserProtection, no_access, read_only, read_execute, read_write, holds,
  lazy_protection_in,
}
use ristux.AddressSpace.Cuts.{sum}

abbrev pub Weight : Type 0
Weight = UserProtection → ℕ

abbrev pub one : Weight
one p = 1

abbrev pub weight_at : Weight → ℕ → LazyMapping → ℕ
weight_at w page m = if holds page m then w m.protection else 0

abbrev pub weight_of : Weight → Option UserProtection → ℕ
weight_of w none = 0
weight_of w (some p) = w p

-- No page is in two mappings.
abbrev pub IsDisjoint : List LazyMapping → Type 0
IsDisjoint ms = (page : ℕ) → sum (weight_at one page) ms ≤ 1

uncovered :
    (w : Weight) (page : ℕ) (ms : List LazyMapping)
    → sum (weight_at one page) ms ≡ 0
    → sum (weight_at w page) ms ≡ 0
uncovered w page [] h = refl
uncovered w page (m ∷ ms) h = elim (Bool-cases (holds page m)) [
  | inl f ↦ absurd (ground (arith, h, f))
  | inr f ↦ ground (arith, f, h, uncovered w page ms)
]

-- In a list where no page is twice, the weight of a page is that of the protection that is found.
pub weight-lookup :
    (w : Weight) (page : ℕ) (ms : List LazyMapping)
    → sum (weight_at one page) ms ≤ 1
    → sum (weight_at w page) ms ≡ weight_of w (lazy_protection_in page ms)
weight-lookup w page [] h = refl
weight-lookup w page (m ∷ ms) h = elim (Bool-cases (holds page m)) [
  | inl f ↦ ground (arith, f, h, uncovered w page ms)
  | inr f ↦ ground (arith, f, h, weight-lookup w page ms)
]

pub lookup-uncovered :
    (page : ℕ) (ms : List LazyMapping)
    → sum (weight_at one page) ms ≡ 0
    → lazy_protection_in page ms ≡ none
lookup-uncovered page [] h = refl
lookup-uncovered page (m ∷ ms) h = elim (Bool-cases (holds page m)) [
  | inl f ↦ absurd (ground (arith, h, f))
  | inr f ↦ ground (arith, f, h, lookup-uncovered page ms)
]

-- A weight that tells the protections apart.
abbrev number_of : Weight
number_of no_access = 1
number_of read_only = 2
number_of read_execute = 3
number_of read_write = 4

abbrev numbered : ℕ → Option UserProtection
numbered n =
    if n == 1
    then some no_access
    else if n == 2
    then some read_only
    else if n == 3
    then some read_execute
    else if n == 4
    then some read_write
    else none

numbered-number_of : (o : Option UserProtection) → numbered (weight_of number_of o) ≡ o
numbered-number_of none = refl
numbered-number_of (some no_access) = refl
numbered-number_of (some read_only) = refl
numbered-number_of (some read_execute) = refl
numbered-number_of (some read_write) = refl

pub eq_of_weights :
    (o p : Option UserProtection) → ((w : Weight) → weight_of w o ≡ weight_of w p) → o ≡ p
eq_of_weights o p h = sym (numbered-number_of o) ∙ ap numbered (h number_of) ∙ numbered-number_of p

-- ===== src/Security/Permission.antt =====
-- The permission check against the rule for owner, group and others.
use ristux.Common.{
  ℕ, suc, zero, ◌+◌, ◌/◌, ◌%◌, ◌^◌, ◌≡◌, ap, sym, ◌∙◌, ◌≢◌, ◌↔◌, ◌⊎◌, inl, inr, true, ◌==◌, List,
  [], ◌∷◌, length, take, any, min, arith, Bool-cases,
}
use mathlib.Core.Bool.{false≢true}
use ristux.Common.Bits.{has_flag-two_pow}
use ristux.Security.{
  Credentials, FileMetadata, Access, read, write, execute, in_group, bit, can_access,
}

-- The binary digit of a mode that a class of users is checked by: 0 to 2 for others, 3 to 5 for the
-- group and 6 to 8 for the owner.
abbrev pub digit : ℕ → ℕ → ℕ
digit mode k = mode / 2 ^ k % 2

abbrev pub access_digit : Access → ℕ
access_digit read = 2
access_digit write = 1
access_digit execute = 0

-- Membership among the first `n` entries of the group array.
pub data Among (g : ℕ) : ℕ → List ℕ → Type 0 where
  first : {n h : ℕ} {gs : List ℕ} → h ≡ g → Among g (suc n) (h ∷ gs)
  later : {n h : ℕ} {gs : List ℕ} → Among g n gs → Among g (suc n) (h ∷ gs)

min-zero_left : (n : ℕ) → min 0 n ≡ 0
min-zero_left n = omega arith

min-zero_right : (n : ℕ) → min n 0 ≡ 0
min-zero_right n = omega arith

min-suc : (m n : ℕ) → min (suc m) (suc n) ≡ suc (min m n)
min-suc m n = omega arith

take-min-length : (n : ℕ) (gs : List ℕ) → take (min n (length gs)) gs ≡ take n gs
take-min-length zero gs = rw (min-zero_left (length gs))
take-min-length (suc n) [] = rw (min-zero_right (suc n))
take-min-length (suc n) (g ∷ gs) =
    rw (min-suc n (length gs)) (ap (λ t. g ∷ t) (take-min-length n gs))

any-take : (g n : ℕ) (gs : List ℕ) → any (λ c. c == g) (take n gs) ≡ true → Among g n gs
any-take g zero gs h = cc
any-take g (suc n) [] h = cc
any-take g (suc n) (c ∷ gs) h = elim (Bool-cases (c == g)) [
  | inl e ↦ first (ground arith)
  | inr e ↦ later (any-take g n gs (ground arith))
]

Among-any : (g n : ℕ) (gs : List ℕ) → Among g n gs → any (λ c. c == g) (take n gs) ≡ true
Among-any g n gs (first e) = ground arith
Among-any g n gs (later {n = m} {gs = rest} a) = ground (arith, Among-any g m rest a)

-- The group of a file is one of the user's.
abbrev pub InGroup : Credentials → ℕ → Type 0
InGroup c g = (c.egid ≡ g) ⊎ Among g c.group_count c.groups

in_group_iff : (c : Credentials) (g : ℕ) → (in_group c g ≡ true) ↔ InGroup c g
unfolding in_group
in_group_iff c g = (
  λ h. elim (Bool-cases (c.egid == g)) [
    | inl e ↦ inl (ground arith)
    | inr e ↦ inr (
        any-take g c.group_count c.groups
          (ground (arith, ap (any (λ c. c == g)) (take-min-length c.group_count c.groups))))
  ],
  λ m. elim m [
    | inl e ↦ ground arith
    | inr a ↦ ground (
      arith,
      ap (any (λ c. c == g)) (take-min-length c.group_count c.groups),
      Among-any g c.group_count c.groups a,
    )
  ],
)

-- Who may do what: the superuser anything; the owner by the owner's digit alone, a member of the
-- file's group by the group's digit alone, and anyone else by the digit for others.
pub data Permitted (m : FileMetadata) (c : Credentials) (a : Access) : Type 0 where
  as_root : c.euid ≡ 0 → Permitted m c a
  as_owner : c.euid ≡ m.owner → digit m.mode (6 + access_digit a) ≡ 1 → Permitted m c a
  as_group :
      c.euid ≢ m.owner → InGroup c m.group → digit m.mode (3 + access_digit a) ≡ 1 → Permitted m c a
  as_other :
      c.euid ≢ m.owner → ¬ InGroup c m.group → digit m.mode (access_digit a) ≡ 1 → Permitted m c a

bit_owner : (mode : ℕ) (a : Access) → bit mode a 6 ≡ (digit mode (6 + access_digit a) == 1)
unfolding bit
bit_owner mode read = has_flag-two_pow 8 mode
bit_owner mode write = has_flag-two_pow 7 mode
bit_owner mode execute = has_flag-two_pow 6 mode

bit_group : (mode : ℕ) (a : Access) → bit mode a 3 ≡ (digit mode (3 + access_digit a) == 1)
unfolding bit
bit_group mode read = has_flag-two_pow 5 mode
bit_group mode write = has_flag-two_pow 4 mode
bit_group mode execute = has_flag-two_pow 3 mode

bit_other : (mode : ℕ) (a : Access) → bit mode a 0 ≡ (digit mode (access_digit a) == 1)
unfolding bit
bit_other mode read = has_flag-two_pow 2 mode
bit_other mode write = has_flag-two_pow 1 mode
bit_other mode execute = has_flag-two_pow 0 mode

module _ (m : FileMetadata) (c : Credentials) (a : Access) where
  permitted : can_access m c a ≡ true → Permitted m c a
  unfolding can_access
  permitted h = elim (Bool-cases (c.euid == 0)) [
    | inl e ↦ as_root (ground arith)
    | inr n ↦ elim (Bool-cases (c.euid == m.owner)) [
      | inl e ↦ as_owner (ground arith) (ground (arith, bit_owner m.mode a))
      | inr o ↦ elim (Bool-cases (in_group c m.group)) [
        | inl g ↦
            as_group (ground arith) ((in_group_iff c m.group).0 g)
              (ground (arith, bit_group m.mode a))
        | inr g ↦
            as_other (ground arith) (λ k. false≢true (sym g ∙ (in_group_iff c m.group).1 k))
              (ground (arith, bit_other m.mode a))
      ]
    ]
  ]

  allowed : Permitted m c a → can_access m c a ≡ true
  unfolding can_access
  allowed (as_root e) = ground arith
  allowed (as_owner e d) = ground (arith, bit_owner m.mode a)
  allowed (as_group o g d) = ground (arith, bit_group m.mode a, (in_group_iff c m.group).1 g)
  allowed (as_other o g d) = elim (Bool-cases (in_group c m.group)) [
    | inl e ↦ absurd (g ((in_group_iff c m.group).0 e))
    | inr e ↦ ground (arith, bit_other m.mode a)
  ]

  -- `can_access` grants an access exactly to whom the rule permits it: the superuser, or by the one
  -- digit of the mode for the class, owner before group before others, that the user belongs to.
  pub can_access_iff : (can_access m c a ≡ true) ↔ Permitted m c a
  can_access_iff = (permitted, allowed)

-- ===== src/Tcp/Segment/Checksum.antt =====
-- The one's complement sum of `add_words` and `checksum`.
use ristux.Common.{
  ℕ, suc, ◌+◌, ◌-◌, ◌*◌, ◌/◌, ◌%◌, ◌<◌, ◌≤◌, ◌≡◌, Bool, true, false, Option, some, List, [], ◌∷◌,
  ◌++◌, length, arith, All, u16_mod, u32_mod,
}
use native.Mathlib.Decide.{dec_lt}
use ristux.Tcp.{Ipv4Addr}
use ristux.Tcp.Segment.{add_words, fold_carries, checksum, checksum_sum, ip_bytes}

abbrev pub IsByte : ℕ → Type 0
IsByte b = b < 256

add_words-le :
    (sum : ℕ) (bytes : List ℕ) → All IsByte bytes → add_words sum bytes ≤ sum + length bytes * 65280
unfolding add_words
add_words-le sum [] h = omega arith
add_words-le sum (hi ∷ []) h = omega arith
add_words-le sum (hi ∷ lo ∷ rest) h = omega (arith, add_words-le (sum + (hi * 256 + lo)) rest h.1.1)

-- The residue modulo 65535 that the carries keep.
fold_step : (sum : ℕ) → (sum % u16_mod + sum / u16_mod) % 65535 ≡ sum % 65535
fold_step sum = omega arith

-- What a finished fold means: a 16-bit value congruent to the sum.
abbrev Folded : ℕ → Option ℕ → Type 0
Folded sum result = (r : ℕ) × (result ≡ some r) × (r < u16_mod) × (r % 65535 ≡ sum % 65535)

fold_carries-last : (fuel sum : ℕ) → sum < u16_mod → Folded sum (fold_carries (suc fuel) sum)
unfolding fold_carries
fold_carries-last fuel sum h = (sum, ground arith, h, omega arith)

fold_carries-step :
    (fuel sum : ℕ)
    → u16_mod ≤ sum
    → Folded (sum % u16_mod + sum / u16_mod) (fold_carries fuel (sum % u16_mod + sum / u16_mod))
    → Folded sum (fold_carries (suc fuel) sum)
unfolding fold_carries
fold_carries-step fuel sum h (r, e, lt, c) = (r, ground arith, lt, omega arith)

fold_carries-any :
    (fuel sum : ℕ)
    → Folded
        (sum % u16_mod + sum / u16_mod)
        (fold_carries (suc fuel) (sum % u16_mod + sum / u16_mod))
    → Folded sum (fold_carries (suc (suc fuel)) sum)
fold_carries-any fuel sum ih = elim (dec_lt sum u16_mod) [
  | yes small ↦ fold_carries-last (suc fuel) sum small
  | no big ↦ fold_carries-step (suc fuel) sum (omega arith) ih
]

fold_carries_lem : (sum : ℕ) → sum < u32_mod → Folded sum (fold_carries 4 sum)
fold_carries_lem sum h =
    fold_carries-any 2 sum (fold_carries-any 1 _ (fold_carries-last 1 _ (omega arith)))

checksum_sum-lt :
    (src dst : Ipv4Addr) (segment : List ℕ)
    → All IsByte (ip_bytes src)
    → All IsByte (ip_bytes dst)
    → All IsByte segment
    → length segment ≤ 65535
    → checksum_sum src dst segment < u32_mod
checksum_sum-lt src dst segment hs hd hb hl = omega (
  arith,
  add_words-le 0 (ip_bytes src) hs,
  add_words-le (add_words 0 (ip_bytes src)) (ip_bytes dst) hd,
  add_words-le _ segment hb,
)

-- Bytes as 16-bit words: a byte in an even place, told by the flag, is the high half of its word.
abbrev pub weigh : Bool → List ℕ → ℕ
weigh even [] = 0
weigh true (b ∷ rest) = b * 256 + weigh false rest
weigh false (b ∷ rest) = b + weigh true rest

-- RFC 793: the pseudo header of addresses, protocol number and length, and then the segment.
abbrev pub with_pseudo_header : Ipv4Addr → Ipv4Addr → List ℕ → List ℕ
with_pseudo_header src dst segment =
    ip_bytes src
    ++ (ip_bytes dst ++ (0 ∷ 6 ∷ length segment / 256 ∷ length segment % 256 ∷ segment))

add_words-weigh : (sum : ℕ) (bytes : List ℕ) → add_words sum bytes ≡ sum + weigh true bytes
unfolding add_words
add_words-weigh sum [] = omega arith
add_words-weigh sum (hi ∷ []) = omega arith
add_words-weigh sum (hi ∷ lo ∷ rest) = omega (arith, add_words-weigh (sum + (hi * 256 + lo)) rest)

checksum_sum-weigh :
    (src dst : Ipv4Addr) (segment : List ℕ)
    → checksum_sum src dst segment ≡ weigh true (with_pseudo_header src dst segment)
checksum_sum-weigh src dst segment = omega (
  arith,
  add_words-weigh 0 (ip_bytes src),
  add_words-weigh (add_words 0 (ip_bytes src)) (ip_bytes dst),
  add_words-weigh (add_words (add_words 0 (ip_bytes src)) (ip_bytes dst) + 6 + length segment)
      segment,
)

-- For addresses and a segment of at most 65535 bytes, the carry loop of `checksum` ends within four
-- rounds without the 32-bit sum having overflowed, and the 16-bit result makes the sum of the 16-bit
-- words of the pseudo header and the segment, an odd last byte being a high half, a multiple of
-- 65535.
pub checksum_lem :
    (src dst : Ipv4Addr) (segment : List ℕ)
    → All IsByte (ip_bytes src)
    → All IsByte (ip_bytes dst)
    → All IsByte segment
    → length segment ≤ 65535
    → (c : ℕ) × (checksum src dst segment ≡ some c)
      × (c < u16_mod)
      × (checksum_sum src dst segment < u32_mod)
      × ((weigh true (with_pseudo_header src dst segment) + c) % 65535 ≡ 0)
unfolding checksum
checksum_lem src dst segment hs hd hb hl =
    let bound = checksum_sum-lt src dst segment hs hd hb hl in
    let (r, e, lt, c) = fold_carries_lem (checksum_sum src dst segment) bound in
    (
      u16_mod - 1 - r,
      rw (e, checksum),
      omega arith,
      bound,
      omega (arith, checksum_sum-weigh src dst segment),
    )

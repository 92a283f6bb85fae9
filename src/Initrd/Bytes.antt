-- ===== src/Initrd/Bytes.antt =====
-- Slices and fields of the archive that kernel/src/initrd/mod.rs and tools/build_rootfs.rs exchange.
use mathlib.Core.List.{append_assoc, append-nil}
use ristux.Common.{
  ℕ, zero, suc, ◌+◌, ◌-◌, ◌%◌, ◌<◌, ◌≤◌, ◌≡◌, ◌∙◌, refl, sym, ap, true, false, ◌==◌, leb, ◌&&◌,
  some, List, [], ◌∷◌, ◌++◌, length, take, drop, length-append, arith,
}
use ristux.Common.Results.{ok}
use ristux.Refcount.{repeat}
use ristux.Initrd.{to_le_bytes, from_le_bytes, slice, read_u16, read_u32, align_up, pad_from, align}

take-append : (xs ys : List ℕ) → take (length xs) (xs ++ ys) ≡ xs
take-append [] ys = refl
take-append (x ∷ xs) ys = ap (λ t. x ∷ t) (take-append xs ys)

drop-append : (xs ys : List ℕ) → drop (length xs) (xs ++ ys) ≡ ys
drop-append [] ys = refl
drop-append (x ∷ xs) ys = drop-append xs ys

-- What stands between a front and a rest is the slice there.
pub slice-append :
    (bytes front xs rest : List ℕ) (start end : ℕ)
    → bytes ≡ front ++ (xs ++ rest)
    → start ≡ length front
    → end ≡ start + length xs
    → slice bytes start end ≡ some xs
unfolding slice
slice-append bytes front xs rest start end e s t =
    let n : end - start ≡ length xs = omega (arith, s, t) in
    let b : leb start end && leb end (length bytes) ≡ true =
      ground (arith, s, t, ap length e, length-append front (xs ++ rest), length-append xs rest) in
    rw b (
      rw n (
        rw (e, s)
          (ap some (ap (take (length xs)) (drop-append front (xs ++ rest)) ∙ take-append xs rest))))

pub from_to_le_bytes2 : (n : ℕ) → n < 65536 → from_le_bytes (to_le_bytes 2 n) ≡ n
from_to_le_bytes2 n h = omega (arith, h)

pub from_to_le_bytes4 : (n : ℕ) → n < 4294967296 → from_le_bytes (to_le_bytes 4 n) ≡ n
from_to_le_bytes4 n h = omega (arith, h)

pub read_u16-append :
    (bytes front rest : List ℕ) (offset n : ℕ)
    → bytes ≡ front ++ (to_le_bytes 2 n ++ rest)
    → offset ≡ length front
    → n < 65536
    → read_u16 bytes offset ≡ ok n
unfolding read_u16
read_u16-append bytes front rest offset n e o h =
    rw (slice-append bytes front (to_le_bytes 2 n) rest offset (offset + 2) e o refl)
      (ap ok (from_to_le_bytes2 n h))

pub read_u32-append :
    (bytes front rest : List ℕ) (offset n : ℕ)
    → bytes ≡ front ++ (to_le_bytes 4 n ++ rest)
    → offset ≡ length front
    → n < 4294967296
    → read_u32 bytes offset ≡ ok n
unfolding read_u32
read_u32-append bytes front rest offset n e o h =
    rw (slice-append bytes front (to_le_bytes 4 n) rest offset (offset + 4) e o refl)
      (ap ok (from_to_le_bytes4 n h))

pad_from-append :
    (rounds k : ℕ) (bytes : List ℕ)
    → align_up (length bytes) ≡ length bytes + k
    → k ≤ rounds
    → pad_from rounds bytes ≡ bytes ++ repeat k 0
unfolding pad_from repeat
pad_from-append zero zero bytes e h = sym (append-nil bytes)
pad_from-append (suc rounds) zero bytes e h =
    let f : (length bytes % 8 == 0) ≡ true = ground (arith, e) in
    rw (f, pad_from) (sym (append-nil bytes))
pad_from-append zero (suc k) bytes e h = absurd (omega (arith, h))
pad_from-append (suc rounds) (suc k) bytes e h =
    let f : (length bytes % 8 == 0) ≡ false = ground (arith, e) in
    let l = length-append bytes (0 ∷ []) in
    rw (f, pad_from)
      (pad_from-append rounds k (bytes ++ (0 ∷ [])) (omega (arith, e, l)) (omega (arith, h))
        ∙ append_assoc bytes (0 ∷ []) (repeat k 0))

-- The zeros up to the next multiple of eight.
pub align-append :
    (bytes : List ℕ) → align bytes ≡ bytes ++ repeat (align_up (length bytes) - length bytes) 0
unfolding align
align-append bytes =
    pad_from-append 7 (align_up (length bytes) - length bytes) bytes (omega arith) (omega arith)

pub length-repeat : (n : ℕ) → length (repeat {A = ℕ} n 0) ≡ n
unfolding repeat
length-repeat zero = refl
length-repeat (suc n) = ap suc (length-repeat n)

pub length-align : (bytes : List ℕ) → length (align bytes) ≡ align_up (length bytes)
length-align bytes =
    let e = align-append bytes in
    omega (
      arith,
      ap length e,
      length-append bytes (repeat (align_up (length bytes) - length bytes) 0),
      length-repeat (align_up (length bytes) - length bytes),
    )

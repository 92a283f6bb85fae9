-- ===== src/Initrd.antt =====
-- The initial ram disk: kernel/src/initrd/mod.rs reads the archive that tools/build_rootfs.rs writes.
-- Bytes are numbers, and a path is the list of its UTF-8 bytes.
pub mod Bytes
pub mod Written
pub mod Roundtrip
mod Tests
use ristux.Common.{
  ℕ, zero, suc, ◌+◌, ◌-◌, ◌*◌, ◌/◌, ◌%◌, Bool, true, false, ◌&&◌, ◌||◌, not, ◌==◌, leb, ltb,
  if◌then◌else◌, Option, none, some, List, [], ◌∷◌, ◌++◌, length, take, drop, u64_max,
}
use ristux.Common.Results.{Result, ok, err}

pub record InitrdFile : Type 0 where
  pub path : List ℕ
  pub content : List ℕ

pub data InitrdError : Type 0 where
  invalid_magic path_overflow path_out_of_bounds path_not_utf8 : InitrdError
  data_overflow data_out_of_bounds u16_out_of_bounds u32_out_of_bounds : InitrdError

-- "RITRD001".
abbrev pub magic : List ℕ
magic = 82 ∷ 73 ∷ 84 ∷ 82 ∷ 68 ∷ 48 ∷ 48 ∷ 49 ∷ []

abbrev pub bytes_eq : List ℕ → List ℕ → Bool
bytes_eq [] [] = true
bytes_eq [] (y ∷ ys) = false
bytes_eq (x ∷ xs) [] = false
bytes_eq (x ∷ xs) (y ∷ ys) = x == y && bytes_eq xs ys

-- `to_le_bytes` of so many bytes, and `from_le_bytes`.
abbrev pub to_le_bytes : ℕ → ℕ → List ℕ
to_le_bytes zero n = []
to_le_bytes (suc k) n = (n % 256) ∷ to_le_bytes k (n / 256)

abbrev pub from_le_bytes : List ℕ → ℕ
from_le_bytes [] = 0
from_le_bytes (b ∷ bs) = b + 256 * from_le_bytes bs

-- `core::str::from_utf8` succeeds: no overlong forms, no surrogates, nothing above U+10FFFF.
abbrev pub is_tail : ℕ → Bool
is_tail b = leb 128 b && leb b 191

abbrev pub second_of_three : ℕ → ℕ → Bool
second_of_three a b =
    if a == 224
    then leb 160 b && leb b 191
    else if a == 237
    then leb 128 b && leb b 159
    else is_tail b

abbrev pub second_of_four : ℕ → ℕ → Bool
second_of_four a b =
    if a == 240
    then leb 144 b && leb b 191
    else if a == 244
    then leb 128 b && leb b 143
    else is_tail b

-- How many bytes the first one announces, none if it cannot come first.
abbrev pub width : ℕ → ℕ
width a =
    if ltb a 128
    then 1
    else if leb 194 a && leb a 223
    then 2
    else if leb 224 a && leb a 239
    then 3
    else if leb 240 a && leb a 244
    then 4
    else 0

abbrev pub is_character : List ℕ → Bool
is_character (a ∷ []) = width a == 1
is_character (a ∷ (b ∷ [])) = width a == 2 && is_tail b
is_character (a ∷ (b ∷ (c ∷ []))) = (width a == 3 && second_of_three a b) && is_tail c
is_character (a ∷ (b ∷ (c ∷ (d ∷ [])))) =
    ((width a == 4 && second_of_four a b) && is_tail c) && is_tail d
is_character _ = false

-- Each round reads a character, so there are no more rounds than bytes.
unfoldable pub is_utf8_from : ℕ → List ℕ → Bool
is_utf8_from rounds [] = true
is_utf8_from zero (b ∷ bs) = false
is_utf8_from (suc rounds) (b ∷ bs) = elim (is_character (take (width b) (b ∷ bs))) [
  | true ↦ is_utf8_from rounds (drop (width b) (b ∷ bs))
  | false ↦ false
]

unfoldable pub is_utf8 : List ℕ → Bool
is_utf8 bytes = is_utf8_from (length bytes) bytes

-- `bytes.get(start..end)`.
unfoldable pub slice : List ℕ → ℕ → ℕ → Option (List ℕ)
slice bytes start end =
    if leb start end && leb end (length bytes)
    then some (take (end - start) (drop start bytes))
    else none

infixl 5 ◌>>=◌
abbrev pub ◌>>=◌ {ℓ κ} :
    {A : Type ℓ} {B : Type κ}
    → Result A InitrdError
    → (A → Result B InitrdError)
    → Result B InitrdError
ok a >>= f = f a
err e >>= f = err e

abbrev pub ok_or {ℓ} : {A : Type ℓ} → Option A → InitrdError → Result A InitrdError
ok_or none e = err e
ok_or (some a) e = ok a

abbrev pub as_utf8 : List ℕ → Result (List ℕ) InitrdError
as_utf8 path = if is_utf8 path then ok path else err path_not_utf8

abbrev pub checked_add : ℕ → ℕ → Option ℕ
checked_add a b = if leb (a + b) u64_max then some (a + b) else none

abbrev pub align_up : ℕ → ℕ
align_up n = (n + 7) / 8 * 8

unfoldable pub read_u16 : List ℕ → ℕ → Result ℕ InitrdError
read_u16 bytes offset = do
  field ← ok_or (slice bytes offset (offset + 2)) u16_out_of_bounds
  ok (from_le_bytes field)

unfoldable pub read_u32 : List ℕ → ℕ → Result ℕ InitrdError
read_u32 bytes offset = do
  field ← ok_or (slice bytes offset (offset + 4)) u32_out_of_bounds
  ok (from_le_bytes field)

-- The file at the offset, and the offset behind it.
unfoldable pub parse_file : List ℕ → ℕ → Result (InitrdFile × ℕ) InitrdError
parse_file bytes offset = do
  path_len ← read_u16 bytes offset
  data_len ← read_u32 bytes (offset + 4)
  path_end ← ok_or (checked_add (offset + 8) path_len) path_overflow
  path ← ok_or (slice bytes (offset + 8) path_end) path_out_of_bounds
  path ← as_utf8 path
  data_end ← ok_or (checked_add (align_up path_end) data_len) data_overflow
  content ← ok_or (slice bytes (align_up path_end) data_end) data_out_of_bounds
  ok (record { path = path; content = content }, align_up data_end)

unfoldable pub parse_files : ℕ → List ℕ → ℕ → List InitrdFile → Result (List InitrdFile) InitrdError
parse_files zero bytes offset files = ok files
parse_files (suc count) bytes offset files = elim (parse_file bytes offset) [
  | err e ↦ err e
  | ok (file, next) ↦ parse_files count bytes next (files ++ (file ∷ []))
]

unfoldable pub parse : List ℕ → Result (List InitrdFile) InitrdError
parse bytes =
    if ltb (length bytes) 16 || not (bytes_eq (take 8 bytes) magic)
    then err invalid_magic
    else do count ← read_u32 bytes 8; parse_files count bytes 16 []

-- The writer. `while bytes.len() % 8 != 0`: seven rounds are enough.
unfoldable pub pad_from : ℕ → List ℕ → List ℕ
pad_from zero bytes = bytes
pad_from (suc rounds) bytes = elim (length bytes % 8 == 0) [
  | true ↦ bytes
  | false ↦ pad_from rounds (bytes ++ (0 ∷ []))
]

unfoldable pub align : List ℕ → List ℕ
align bytes = pad_from 7 bytes

unfoldable pub append_file : List ℕ → InitrdFile → List ℕ
append_file archive f =
    let header =
      (archive ++ to_le_bytes 2 (length f.path % 65536))
      ++ to_le_bytes 2 0
      ++ to_le_bytes 4 (length f.content % 4294967296) in
    align (align (header ++ f.path) ++ f.content)

unfoldable pub append_files : List ℕ → List InitrdFile → List ℕ
append_files archive [] = archive
append_files archive (f ∷ fs) = append_files (append_file archive f) fs

-- The archive that `main` writes of its list of files.
unfoldable pub write_archive : List InitrdFile → List ℕ
write_archive files =
    append_files (magic ++ to_le_bytes 4 (length files % 4294967296) ++ to_le_bytes 4 0) files

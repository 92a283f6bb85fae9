-- ===== src/Initrd/Written.antt =====
-- A file that tools/build_rootfs.rs appends is read by `parse`, kernel/src/initrd/mod.rs.
use mathlib.Core.List.{append_assoc, append-nil}
use ristux.Common.{
  ℕ, ◌+◌, ◌-◌, ◌%◌, ◌<◌, ◌≤◌, ◌≡◌, ◌∙◌, refl, sym, ap, true, leb, List, [], ◌++◌, length,
  length-append, u64_max, arith,
}
use ristux.Common.Results.{ok}
use ristux.Refcount.{repeat}
use ristux.Initrd.{InitrdFile, to_le_bytes, is_utf8, align_up, align, append_file, parse_file}
use ristux.Initrd.Bytes.{slice-append, read_u16-append, read_u32-append, align-append, length-align}

-- A file that the format can hold.
pub record FileIsValid (f : InitrdFile) : Type 0 where
  pub path_short : length f.path < 65536
  pub content_short : length f.content < 4294967296
  pub path_utf8 : is_utf8 f.path ≡ true

-- The bytes behind the archive, from the second field on.
abbrev header : List ℕ → InitrdFile → List ℕ
header archive f =
    (archive ++ to_le_bytes 2 (length f.path))
    ++ to_le_bytes 2 0
    ++ to_le_bytes 4 (length f.content)

length-header : (archive : List ℕ) (f : InitrdFile) → length (header archive f) ≡ length archive + 8
length-header archive f = omega (
  arith,
  length-append ((archive ++ to_le_bytes 2 (length f.path)) ++ to_le_bytes 2 0)
      (to_le_bytes 4 (length f.content)),
  length-append (archive ++ to_le_bytes 2 (length f.path)) (to_le_bytes 2 0),
  length-append archive (to_le_bytes 2 (length f.path)),
)

append_file-header :
    (archive : List ℕ) (f : InitrdFile)
    → FileIsValid f
    → append_file archive f ≡ align (align (header archive f ++ f.path) ++ f.content)
unfolding append_file
append_file-header archive f v =
    let p : length f.path % 65536 ≡ length f.path = omega (arith, v.path_short) in
    let c : length f.content % 4294967296 ≡ length f.content = omega (arith, v.content_short) in
    rw (p, c)

module _ (archive : List ℕ) (f : InitrdFile) (v : FileIsValid f) where
  pub length-append_file :
      length (append_file archive f)
      ≡ align_up (align_up (length archive + 8 + length f.path) + length f.content)
  length-append_file = rw (append_file-header archive f v) (
      omega (
        arith,
        length-align (align (header archive f ++ f.path) ++ f.content),
        length-append (align (header archive f ++ f.path)) f.content,
        length-align (header archive f ++ f.path),
        length-append (header archive f) f.path,
        length-header archive f,
      ))

  -- What stands in front of the content, and the zeros behind the path and behind the content.
  before_content : List ℕ
  before_content = align (header archive f ++ f.path)

  path_zeros : List ℕ
  path_zeros =
      repeat (align_up (length (header archive f ++ f.path)) - length (header archive f ++ f.path))
        0

  content_zeros : List ℕ
  content_zeros =
      repeat
        (align_up (length (before_content ++ f.content)) - length (before_content ++ f.content)) 0

  module _ (bytes rest : List ℕ) (e : bytes ≡ append_file archive f ++ rest) where
    at_content : bytes ≡ before_content ++ (f.content ++ (content_zeros ++ rest))
    unfolding before_content content_zeros
    at_content =
        e
        ∙ ap (λ t. t ++ rest)
            (append_file-header archive f v
              ∙ align-append (align (header archive f ++ f.path) ++ f.content))
        ∙ (simp append_assoc)

    at_path :
        bytes
        ≡ header archive f ++ (f.path ++ (path_zeros ++ (f.content ++ (content_zeros ++ rest))))
    unfolding before_content path_zeros
    at_path =
        at_content
        ∙ ap (λ t. t ++ (f.content ++ (content_zeros ++ rest)))
            (align-append (header archive f ++ f.path))
        ∙ append_assoc (header archive f ++ f.path) path_zeros
            (f.content ++ (content_zeros ++ rest))
        ∙ append_assoc (header archive f) f.path
            (path_zeros ++ (f.content ++ (content_zeros ++ rest)))

    behind : List ℕ
    behind = f.path ++ (path_zeros ++ (f.content ++ (content_zeros ++ rest)))

    at_lengths :
        (bytes
          ≡ archive
            ++ (to_le_bytes 2 (length f.path)
                ++ (to_le_bytes 2 0 ++ (to_le_bytes 4 (length f.content) ++ behind))))
        × (bytes
            ≡ ((archive ++ to_le_bytes 2 (length f.path)) ++ to_le_bytes 2 0)
              ++ (to_le_bytes 4 (length f.content) ++ behind))
    unfolding behind
    at_lengths =
        let second =
          at_path
          ∙ append_assoc ((archive ++ to_le_bytes 2 (length f.path)) ++ to_le_bytes 2 0)
              (to_le_bytes 4 (length f.content))
              (f.path ++ (path_zeros ++ (f.content ++ (content_zeros ++ rest)))) in
        (
          second
              ∙ append_assoc (archive ++ to_le_bytes 2 (length f.path)) (to_le_bytes 2 0)
                  (to_le_bytes 4 (length f.content) ++ _)
              ∙ append_assoc archive (to_le_bytes 2 (length f.path)) (to_le_bytes 2 0 ++ _),
          second,
        )

    pub parse_file-append_file :
        length bytes ≤ u64_max
        → parse_file bytes (length archive) ≡ ok (f, length (append_file archive f))
    unfolding parse_file before_content
    parse_file-append_file small =
        let h = length-header archive f in
        let o = length-append_file in
        let total : length bytes ≡ length (append_file archive f) + length rest =
          ap length e ∙ length-append (append_file archive f) rest in
        let r2 =
          read_u16-append bytes archive _ (length archive) (length f.path) at_lengths.0 refl
            v.path_short in
        let two = length-append (archive ++ to_le_bytes 2 (length f.path)) (to_le_bytes 2 0) in
        let one = length-append archive (to_le_bytes 2 (length f.path)) in
        let r4 =
          read_u32-append bytes ((archive ++ to_le_bytes 2 (length f.path)) ++ to_le_bytes 2 0) _
            (length archive + 4) (length f.content) at_lengths.1 (omega (arith, two, one))
            v.content_short in
        let s1 =
          slice-append bytes (header archive f) f.path _ (length archive + 8)
            (length archive + 8 + length f.path) at_path (omega (arith, h)) refl in
        let b =
          length-align (header archive f ++ f.path)
          ∙ ap align_up (length-append (header archive f) f.path) in
        let s2 =
          slice-append bytes before_content f.content _
            (align_up (length archive + 8 + length f.path))
            (align_up (length archive + 8 + length f.path) + length f.content) at_content
            (omega (arith, h, b)) refl in
        let c1 : leb (length archive + 8 + length f.path) u64_max ≡ true =
          ground (arith, small, total, o) in
        let c2 : leb (align_up (length archive + 8 + length f.path) + length f.content) u64_max
            ≡ true =
          ground (arith, small, total, o) in
        rw (r2, r4, c1, s1, v.path_utf8, c2, s2, o) refl

-- Appending a file adds to the end.
pub extends :
    (archive : List ℕ) (f : InitrdFile)
    → FileIsValid f
    → (t : List ℕ) × (append_file archive f ≡ archive ++ t)
extends archive f v = (
  _,
  (at_lengths archive f v (append_file archive f) [] (sym (append-nil (append_file archive f)))).0,
)

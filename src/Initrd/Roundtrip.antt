-- ===== src/Initrd/Roundtrip.antt =====
-- The archive of tools/build_rootfs.rs read by kernel/src/initrd/mod.rs.
use mathlib.Core.List.{append_assoc, append-nil}
use ristux.Common.{
  ℕ, ◌%◌, ◌<◌, ◌≤◌, ◌≡◌, ◌∙◌, refl, sym, ap, true, false, ltb, List, [], ◌∷◌, ◌++◌, length, take,
  All, u64_max, arith,
}
use ristux.Common.Results.{ok}
use ristux.Initrd.{
  InitrdFile, magic, bytes_eq, to_le_bytes, parse_files, parse, append_file, append_files,
  write_archive,
}
use ristux.Initrd.Bytes.{read_u32-append}
use ristux.Initrd.Written.{FileIsValid, extends, parse_file-append_file}

-- Appending adds to the end.
append_files-extends :
    (fs : List InitrdFile) (archive : List ℕ)
    → All FileIsValid fs
    → (t : List ℕ) × (append_files archive fs ≡ archive ++ t)
unfolding append_files
append_files-extends [] archive v = ([], sym (append-nil archive))
append_files-extends (f ∷ fs) archive v =
    let (x, e) = extends archive f v.0 in
    let (t, g) = append_files-extends fs (append_file archive f) v.1 in
    (x ++ t, g ∙ ap (λ a. a ++ t) e ∙ append_assoc archive x t)

parse_files-append_files :
    (fs : List InitrdFile) (archive bytes : List ℕ) (found : List InitrdFile)
    → All FileIsValid fs
    → bytes ≡ append_files archive fs
    → length bytes ≤ u64_max
    → parse_files (length fs) bytes (length archive) found ≡ ok (found ++ fs)
unfolding append_files parse_files
parse_files-append_files [] archive bytes found v e small = ap ok (sym (append-nil found))
parse_files-append_files (f ∷ fs) archive bytes found v e small =
    let (t, g) = append_files-extends fs (append_file archive f) v.1 in
    let p = parse_file-append_file archive f v.0 bytes t (e ∙ g) small in
    rw (p, parse_files)
      (parse_files-append_files fs (append_file archive f) bytes (found ++ (f ∷ [])) v.1 e small
        ∙ ap ok (append_assoc found (f ∷ []) fs))

abbrev front : List InitrdFile → List ℕ
front files = magic ++ to_le_bytes 4 (length files) ++ to_le_bytes 4 0

-- The kernel's `parse` of an archive that the root file system builder writes gives the files that
-- were written, in their order, if there are fewer than 2 ^ 32 of them, their paths are valid UTF-8 of
-- fewer than 2 ^ 16 bytes, their contents have fewer than 2 ^ 32 bytes, and the archive has fewer than
-- 2 ^ 64.
pub parse-write_archive :
    (files : List InitrdFile)
    → All FileIsValid files
    → length files < 4294967296
    → length (write_archive files) ≤ u64_max
    → parse (write_archive files) ≡ ok files
unfolding parse write_archive
parse-write_archive files v few small =
    let n : length files % 4294967296 ≡ length files = omega (arith, few) in
    let e : write_archive files ≡ append_files (front files) files = rw n in
    let (t, g) = append_files-extends files (front files) v in
    let counted =
      read_u32-append (write_archive files) magic (to_le_bytes 4 0 ++ t) 8 (length files) (e ∙ g)
        refl few in
    let all = parse_files-append_files files (front files) (write_archive files) [] v e small in
    let enough : ltb (length (write_archive files)) 16 ≡ false =
      ground (arith, ap length (e ∙ g)) in
    let begins : bytes_eq (take 8 (write_archive files)) magic ≡ true =
      ap (λ b. bytes_eq (take 8 b) magic) (e ∙ g) in
    rw (enough, begins, counted) all

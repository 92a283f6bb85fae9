-- ===== src/Initrd/Tests.antt =====
-- An archive of two files, and what kernel/src/initrd/mod.rs makes of it and of broken ones.
use ristux.Common.{◌≡◌, refl, true, false, List, [], ◌∷◌, take, length, arith}
use ristux.Common.Results.{ok, err}
use ristux.Initrd.{
  InitrdFile, invalid_magic, data_out_of_bounds, is_utf8, is_utf8_from, slice, read_u16, read_u32,
  parse_file, parse_files, parse, pad_from, align, append_file, append_files, write_archive,
}
use ristux.Initrd.Roundtrip.{parse-write_archive}

-- "/a" with three bytes, and an empty file at "/é".
abbrev two_files : List InitrdFile
two_files =
    record { path = 47 ∷ 97 ∷ []; content = 1 ∷ 2 ∷ 3 ∷ [] }
    ∷ record { path = 47 ∷ 195 ∷ 169 ∷ []; content = [] }
    ∷ []

written_length : length (write_archive two_files) ≡ 56
unfolding write_archive append_files append_file align pad_from
written_length = refl

cut_off : parse (take 30 (write_archive two_files)) ≡ err data_out_of_bounds
unfolding parse parse_files parse_file read_u16 read_u32 slice is_utf8 is_utf8_from write_archive
    append_files append_file align pad_from
cut_off = refl

too_short : parse (1 ∷ []) ≡ err invalid_magic
unfolding parse
too_short = refl

-- A surrogate, an overlong slash and a lone tail.
not_utf8 :
    (is_utf8 (237 ∷ 160 ∷ 128 ∷ []) ≡ false)
    × (is_utf8 (192 ∷ 175 ∷ []) ≡ false)
    × (is_utf8 (128 ∷ []) ≡ false)
    × (is_utf8 (240 ∷ 159 ∷ 152 ∷ 128 ∷ []) ≡ true)
unfolding is_utf8 is_utf8_from
not_utf8 = (refl, refl, refl, refl)

paths_utf8 : (is_utf8 (47 ∷ 97 ∷ []) ≡ true) × (is_utf8 (47 ∷ 195 ∷ 169 ∷ []) ≡ true)
unfolding is_utf8 is_utf8_from
paths_utf8 = (refl, refl)

parse-write_archive_example : parse (write_archive two_files) ≡ ok two_files
parse-write_archive_example =
    parse-write_archive two_files
      (
        record { path_short = omega arith; content_short = omega arith; path_utf8 = paths_utf8.0 },
        (
          record {
            path_short = omega arith;
            content_short = omega arith;
            path_utf8 = paths_utf8.1;
          },
          tt,
        ),
      )
      (omega arith) (omega (arith, written_length))

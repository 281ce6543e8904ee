-- ===== src/Tar/Tests.antt =====
-- The theorems on src/kernel/util/Files/tar_parse.c, at an archive of one file of five bytes.
use icarus.Prelude.{
  ◌||◌, ◌≡◌, refl, ◌&&◌, ltb, leb, ◌==◌, if◌then◌else◌, some, List, [], ◌∷◌, arith,
}
use icarus.BitMap.{Bytes}
use icarus.Tar.{tar_count_files, parse_from}
use icarus.Tar.Archive.{Entry, IsArchive, IsHeader, IsSize, files}
use icarus.Tar.Count.{tar_count_files-files}
use icarus.Tar.Parse.{Reads, headers_from, parse_from-headers_from}

abbrev one_file : Bytes
one_file x =
    if ltb x 100
    then 97
    else if x == 134
    then 53
    else if (leb 124 x && ltb x 134) || x == 156
    then 48
    else 0

abbrev five_bytes : List Entry
five_bytes = record { size = 5; typeflag = 48 } ∷ []

one_file-IsSize : IsSize one_file 0 5
one_file-IsSize = record { digits = λ k lt. ground arith; stop = omega arith; number = refl }

one_file-IsHeader : IsHeader one_file 0 (record { size = 5; typeflag = 48 })
one_file-IsHeader = record { named = omega arith; in_octal = one_file-IsSize; type = refl }

one_file-IsArchive : IsArchive one_file 0 1024 five_bytes
one_file-IsArchive = (one_file-IsHeader, (refl, refl))

tar_count_files-files_example : tar_count_files one_file 0 10240 ≡ files five_bytes
tar_count_files-files_example =
    tar_count_files-files one_file 0 10240 1024 five_bytes one_file-IsArchive (omega arith)
      (omega arith)

one_file-Reads : Reads one_file 0 0 five_bytes
one_file-Reads = (omega arith, one_file-IsSize, omega arith, omega arith, refl)

parse_from-headers_from_example : parse_from 3 one_file 0 0 ≡ some (headers_from 0 five_bytes)
parse_from-headers_from_example =
    parse_from-headers_from 3 one_file 0 0 five_bytes (omega arith) one_file-Reads

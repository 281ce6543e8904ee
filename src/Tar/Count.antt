-- ===== src/Tar/Count.antt =====
-- `tar_count_files` of src/kernel/util/Files/tar_parse.c counts the regular files of an archive.
use icarus.Prelude.{
  ℕ, zero, suc, ◌+◌, ◌/◌, ◌^◌, ◌<◌, ◌≤◌, ◌≡◌, false, true, ◌||◌, leb, ◌==◌, List, [], ◌∷◌, length,
  arith, Bool-cases, inl, inr,
}
use icarus.Prelude.Words.{add64, sub64, mul64}
use icarus.BitMap.{Bytes}
use icarus.Tar.{count_from, tar_count_files}
use icarus.Tar.Octal.{parse_octal-IsSize}
use icarus.Tar.Archive.{Entry, next_at, IsArchive, files, at-le-end}

count_from_lem :
    (fuel : ℕ) (memory : Bytes) (archive_end at end count : ℕ) (es : List Entry)
    → length es < fuel
    → IsArchive memory at end es
    → end + 512 ≤ archive_end
    → archive_end < 2 ^ 64
    → count + length es < 2 ^ 64
    → count_from fuel memory archive_end at count ≡ count + files es
unfolding count_from
count_from_lem zero memory archive_end at end count es enough h fits lt small = absurd (omega arith)
count_from_lem (suc fuel) memory archive_end at end count [] enough h fits lt small =
    let inside : leb (add64 at 512) archive_end ≡ true = ground (arith, h.0) in
    rw (inside, h.1) (omega arith)
count_from_lem (suc fuel) memory archive_end at end count (e ∷ es) enough h fits lt small =
    let up = at-le-end memory (next_at at e) end es h.1 in
    let inside : leb (add64 at 512) archive_end ≡ true = ground (arith, up) in
    let named : memory at == 0 ≡ false = ground (arith, h.0.named) in
    let next : add64 at (add64 512 (mul64 (sub64 (add64 e.size 512) 1 / 512) 512)) ≡ next_at at e =
      omega (arith, up) in
    let more : add64 count 1 ≡ count + 1 = omega arith in
    let read = parse_octal-IsSize memory at e.size h.0.in_octal in
    elim (Bool-cases (e.typeflag == 48 || e.typeflag == 0)) [
      | inl file ↦
          let rest =
            count_from_lem fuel memory archive_end (next_at at e) end (count + 1) es (omega arith)
              h.1 fits lt (omega arith) in
          rw (inside, named, read, h.0.type, next, more, file) (omega (arith, rest))
      | inr other ↦
          let rest =
            count_from_lem fuel memory archive_end (next_at at e) end count es (omega arith) h.1
              fits lt (omega arith) in
          rw (inside, named, read, h.0.type, next, more, other) (omega (arith, rest))
    ]

-- On an archive of headers with sizes of eleven octal digits that ends, with its zero block, inside a range of memory below 2 ^ 64,
-- `tar_count_files` for that range returns the number of its entries of type `0` or zero.
pub tar_count_files-files :
    (memory : Bytes) (start length end : ℕ) (es : List Entry)
    → IsArchive memory start end es
    → end + 512 ≤ start + length
    → start + length < 2 ^ 64
    → tar_count_files memory start length ≡ files es
unfolding tar_count_files
tar_count_files-files memory start size end es h fits lt =
    let up = at-le-end memory start end es h in
    let bound : add64 start size ≡ start + size = omega arith in
    rw bound (
      omega (
        arith,
        count_from_lem (size / 512 + 1) memory (start + size) start end 0 es (omega arith) h fits lt
            (omega arith),
      ))

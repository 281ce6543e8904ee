-- ===== src/Tar.antt =====
-- The tar reader of src/kernel/util/Files/tar_parse.c over flat memory. A header has the file's name at
-- its address, the size in octal digits at offset 124, and the type at offset 156.
pub mod Archive
mod Octal
mod Count
mod Parse
mod Tests
use icarus.Prelude.{
  ℕ, zero, suc, ◌+◌, ◌-◌, ◌*◌, ◌/◌, ◌%◌, ◌^◌, ◌&&◌, ◌||◌, ltb, leb, ◌==◌, if◌then◌else◌, Option,
  none, some, List, [], ◌∷◌, length,
}
use icarus.Prelude.Words.{add64, sub64, mul64, add32, sub32, mul32}
use icarus.BitMap.{Bytes}

abbrev pub tar_block_size : ℕ
tar_block_size = 512

abbrev pub size_offset : ℕ
size_offset = 124

abbrev pub type_offset : ℕ
type_offset = 156

-- `in[j - 1] - '0'` as an unsigned int; the char is signed
unfoldable pub digit : ℕ → ℕ
digit c = sub32 (if ltb c 128 then c else c + 2 ^ 32 - 256) 48

-- the loop of `getsize`
unfoldable pub getsize_loop : Bytes → (text j count size : ℕ) → ℕ
unfolding digit
getsize_loop memory text zero count size = size
getsize_loop memory text (suc j) count size =
    getsize_loop memory text j (mul32 count 8)
      (add32 size (mul32 (digit (memory (text + j))) count))

unfoldable pub getsize : Bytes → (text : ℕ) → ℕ
unfolding getsize_loop
getsize memory text = getsize_loop memory text 11 1 0

-- The loop of `parse`: it ends at a header whose name has a zero at index `i`. The addresses of the headers are
-- what it stores, one for each `i`; `none` when the rounds are used up.
unfoldable pub parse_from : ℕ → Bytes → (i address : ℕ) → Option (List ℕ)
unfolding getsize
parse_from zero memory i address = none
parse_from (suc n) memory i address =
    let size = getsize memory (address + size_offset) in
    let past = add64 address (mul32 (add32 (size / 512) 1) 512) in
    let address' = if size % 512 == 0 then past else add64 past 512 in
    let rest = parse_from n memory (i + 1) address' in
    if memory (address + i) == 0
    then some []
    else elim rest [ none ↦ none | some headers ↦ some (address ∷ headers) ]

-- the loop of `parse_octal`, with `n` characters left
unfoldable pub parse_octal : Bytes → (text n value : ℕ) → ℕ
parse_octal memory text zero value = value
parse_octal memory text (suc n) value =
    let c = memory text in
    let rest = parse_octal memory (text + 1) n (add64 (mul64 value 8) (c - 48)) in
    if leb 48 c && leb c 55 then rest else value

-- the loop of `tar_count_files`
unfoldable pub count_from : ℕ → Bytes → (archive_end cursor file_count : ℕ) → ℕ
unfolding parse_octal
count_from zero memory archive_end cursor file_count = file_count
count_from (suc n) memory archive_end cursor file_count =
    let file_size = parse_octal memory (cursor + size_offset) 12 0 in
    let typeflag = memory (cursor + type_offset) in
    let file_count' = if typeflag == 48 || typeflag == 0 then add64 file_count 1 else file_count in
    let data_blocks = sub64 (add64 file_size tar_block_size) 1 / tar_block_size in
    let cursor' = add64 cursor (add64 tar_block_size (mul64 data_blocks tar_block_size)) in
    let rest = count_from n memory archive_end cursor' file_count' in
    if leb (add64 cursor tar_block_size) archive_end
    then if memory cursor == 0 then file_count else rest
    else file_count

-- Each round but the last moves the cursor on by a block at least.
unfoldable pub tar_count_files : Bytes → (archive_start archive_length : ℕ) → ℕ
unfolding count_from
tar_count_files memory archive_start archive_length =
    count_from (archive_length / 512 + 1) memory (add64 archive_start archive_length) archive_start
      0

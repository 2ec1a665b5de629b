-- ===== src/File/Bitmap.antt =====
-- The bitmap of data blocks in file.c: `getFreeBlock`, `update_dataBlockBit`, `allocBlock` and
-- `init_dataBlockBit`.
pub mod Bits
pub mod Scan
pub mod Update
pub mod Alloc
use Prim.Native.Nat.{bit_and, bit_or}
use nbos.Base.{
  ℕ, zero, suc, ◌+◌, ◌-◌, ◌*◌, ◌/◌, ◌%◌, ◌^◌, Bool, true, false, not, ◌||◌, Option, none, some,
  List, [], ◌∷◌, ◌==◌, ltb, if◌then◌else◌, set, get_or, length,
}
use nbos.Base.Bytes.{Bytes, write8}
use nbos.File.Disk.{Disk, read_block, write_block, clear_block, k_readsector}
use nbos.File.Layout.{Inode, SuperBlock}
use nbos.File.Inodes.{read_super_block}

abbrev pub block_free : ℕ
block_free = 0

abbrev pub block_busy : ℕ
block_busy = 1

abbrev pub file_sys_blocks : ℕ
file_sys_blocks = 700

-- `byte & (1 << index)` as a test.
unfoldable pub bit_set : ℕ → ℕ → Bool
bit_set byte index = not (bit_and byte (2 ^ index) == 0)

-- The first loop of `getFreeBlock`, with `n` rounds left: the first byte that is not 255, or the
-- end. The byte there is read in both cases.
unfoldable pub free_byte : Bytes → ℕ → ℕ → ℕ
free_byte start zero i = i
free_byte start (suc n) i =
    let next = free_byte start n (i + 1) in if start i == 255 then next else i

-- The second loop. It ends at index 8 at the latest, where a byte has no bit.
unfoldable pub free_bit : ℕ → ℕ → ℕ → ℕ
free_bit zero byte index = index
free_bit (suc fuel) byte index =
    let next = free_bit fuel byte (index + 1) in if bit_set byte index then next else index

unfoldable pub get_free_block : Bytes → ℕ → ℕ
get_free_block start size = let i = free_byte start size 0 in i * 8 + free_bit 9 (start i) 0

-- `none` is the result -1. The shifted status is an `int`, and the assignment keeps its low byte.
unfoldable pub update_data_block_bit : Disk → ℕ → ℕ → Option Disk
unfolding bit_set k_readsector
update_data_block_bit d block_no status =
    let bit_block_no = block_no / (512 * 8) + 50 + 1 in
    let arr = read_block d bit_block_no in
    let byte = (block_no % (512 * 8)) / 8 in
    let bit = (block_no % (512 * 8)) % 8 in
    if ltb file_sys_blocks block_no || not (status == block_busy || status == block_free)
    then none
    else some (
        if bit_set (arr byte) bit
        then write_block d (write8 arr byte (bit_and (arr byte) (status * 2 ^ bit))) bit_block_no
        else write_block d (write8 arr byte (bit_or (arr byte) (status * 2 ^ bit))) bit_block_no)

-- The index of the first slot that is 0, counted from `a`.
unfoldable pub free_slot : ℕ → List ℕ → Option ℕ
free_slot a [] = none
free_slot a (x ∷ xs) = let rest = free_slot (a + 1) xs in if x == 0 then some a else rest

abbrev pub minus_one : ℕ
minus_one = 2 ^ 32 - 1

-- The loop over the bitmap's blocks: `free_block` as it stands after the loop.
unfoldable pub find_free_block : Disk → List ℕ → ℕ → ℕ → ℕ
unfolding k_readsector
find_free_block d [] i free_block = free_block
find_free_block d (bit_no ∷ rest) i free_block =
    let found = get_free_block (read_block d bit_no) 512 in
    let next = find_free_block d rest (i + 1) found in
    if found == minus_one then next else i * 512 * 8 + found

-- The result of `update_dataBlockBit` is ignored: where it fails, the disk stays.
abbrev pub updated : Disk → Option Disk → Disk
updated d none = d
updated d (some d') = d'

-- `none` is the result -1, with nothing written.
unfoldable pub alloc_block : Disk → Inode → Option (Inode × Disk)
alloc_block d i = elim (free_slot 0 i.block_no) [
  | none ↦ none
  | some a ↦
      let free_block = find_free_block d (read_super_block d).data_block_bit_no 0 0 in
      let cleared = clear_block d free_block in
      if free_block == minus_one
      then none
      else some (
        record i { block_no = set i.block_no a free_block },
        updated cleared (update_data_block_bit cleared free_block block_busy),
      )
]

-- The blocks 51 to 55 zeroed, with `n` left to do from `i` on.
unfoldable pub zero_blocks : ℕ → ℕ → Disk → Disk
zero_blocks zero i d = d
zero_blocks (suc n) i d = zero_blocks n (i + 1) (write_block d (λ _. 0) (50 + i))

-- `arr[j] = 0xff` for `n` values of `j` from `i` on.
unfoldable pub fill_ones : ℕ → ℕ → Bytes → Bytes
fill_ones zero j arr = arr
fill_ones (suc n) j arr = fill_ones n (j + 1) (write8 arr j 0xff)

-- `arr[byte] += 1 << k` for `n` values of `k` from `k` on.
unfoldable pub add_bits : ℕ → ℕ → ℕ → Bytes → Bytes
add_bits zero k byte arr = arr
add_bits (suc n) k byte arr = add_bits n (k + 1) byte (write8 arr byte (arr byte + 2 ^ k))

abbrev pub busy_blocks : ℕ
busy_blocks = 1 + 5 + 50

unfoldable pub init_data_block_bit : Disk → Disk
unfolding zero_blocks fill_ones add_bits
init_data_block_bit d =
    let ones = fill_ones (busy_blocks / 8) 0 (λ _. 0) in
    let arr = add_bits (busy_blocks % 8) 0 (busy_blocks / 8) ones in
    write_block (zero_blocks 5 1 d) arr (50 + 1)

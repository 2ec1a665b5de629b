-- ===== src/File/Content.antt =====
-- `writeFile`, `read_file_at_offset` and `readFile` of file.c. Each round of a loop moves at least
-- one byte, so the loops are given as many rounds as there are bytes to move.
pub mod Refine
pub mod Unallocated
use Prim.Native.Nat.{min}
use nbos.Base.{
  ℕ, zero, suc, ◌+◌, ◌-◌, ◌*◌, ◌/◌, ◌%◌, ◌^◌, Bool, true, false, not, Option, none, some, ◌==◌, ltb,
  if◌then◌else◌, get_or, get_elem?,
}
use nbos.Base.Bytes.{Bytes}
use nbos.Memory.Copy.{memmov}
use nbos.File.Disk.{Disk, read_block, write_block, k_readsector}
use nbos.File.Layout.{Inode}
use nbos.File.Bitmap.{alloc_block}

-- `struct open_file` of kernel.h.
pub record OpenFile : Type 0 where
  pub oflags : ℕ
  pub offset : ℕ
  pub f_inode_block_no : ℕ
  pub f_inode_offset : ℕ
  pub isopen : ℕ

-- The result of `allocBlock` is ignored: where it fails, the disk and the inode stay.
abbrev pub grown : Disk → Inode → Option (Inode × Disk) → Inode × Disk
grown d i none = (i, d)
grown d i (some r) = r

-- `writeFile`'s loop: `rest` bytes from `buf + start` to the file's `offset`. The guard of `writeFile`
-- keeps the index below 20, inside the table, where `offset + size` is below 2^32. `block_no` is read before `allocBlock`, and not again.
unfoldable pub write_loop : ℕ → Disk → Inode → Bytes → ℕ → ℕ → ℕ → Inode × Disk
unfolding k_readsector
write_loop zero d i buf start rest offset = (i, d)
write_loop (suc fuel) d i buf start rest offset =
    let block_no = get_or i.block_no (offset / 512) 0 in
    let now = if block_no == 0 then grown d i (alloc_block d i) else (i, d) in
    let left = min (512 - offset % 512) rest in
    let arr = memmov buf start (read_block now.1 block_no) (offset % 512) left in
    let next =
      write_loop fuel (write_block now.1 arr block_no) now.0 buf (start + left) (rest - left)
        (offset + left) in
    if rest == 0 then (i, d) else next

-- The inode, the open file and the disk afterwards; `none` is the result -1, with nothing written. The buffer
-- lies within the 32-bit addresses: the source compares `start` with its end, `ptr + size`, as pointers.
unfoldable pub write_file : Disk → OpenFile → Inode → Bytes → ℕ → Option (Inode × OpenFile × Disk)
write_file d file i buf size =
    let (i', d') = write_loop size d i buf 0 size file.offset in
    if ltb (20 * 512) ((file.offset + size) % 2 ^ 32)
    then none
    else some (i', record file { offset = (file.offset + size) % 2 ^ 32 }, d')

-- What a read returns: `fault` where the table of blocks is read past its end, the result -1 with
-- what the buffer holds, or a number of bytes with the buffer.
pub data ReadResult : Type 0 where
  fault : ReadResult
  failed : Bytes → ReadResult
  got : ℕ → Bytes → ReadResult

unfoldable pub read_loop : ℕ → Disk → Inode → ℕ → Bytes → ℕ → ℕ → ℕ → ReadResult
unfolding k_readsector
read_loop zero d i offset buf next rest read_size = got read_size buf
read_loop (suc fuel) d i offset buf next rest read_size =
    let left = min (512 - offset % 512) rest in
    let more = λ (block_no : ℕ).
      read_loop fuel d i (offset + left)
        (memmov (read_block d block_no) (offset % 512) buf next left) (next + left) (rest - left)
        (read_size + left) in
    if rest == 0 then got read_size buf else elim (get_elem? i.block_no (offset / 512)) [
      | none ↦ fault
      | some block_no ↦ if block_no == 0 then failed buf else more block_no
    ]

unfoldable pub read_file_at_offset : Disk → Inode → ℕ → Bytes → ℕ → ReadResult
read_file_at_offset d i offset buf size =
    let result = read_loop size d i offset buf 0 size 0 in
    if ltb i.size offset then failed buf else result

-- The open file moves on by what was read.
abbrev pub advanced : OpenFile → ReadResult → OpenFile × ReadResult
advanced file fault = (file, fault)
advanced file (failed buf) = (file, failed buf)
advanced file (got n buf) = (record file { offset = (file.offset + n) % 2 ^ 32 }, got n buf)

unfoldable pub read_file : Disk → OpenFile → Inode → Bytes → ℕ → OpenFile × ReadResult
read_file d file i buf size = advanced file (read_file_at_offset d i file.offset buf size)

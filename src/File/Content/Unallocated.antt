-- ===== src/File/Content/Unallocated.antt =====
-- A write to a part of a file that has no block yet.
use Prim.Native.Nat.{min}
use nbos.Base.{
  ℕ, zero, suc, ◌+◌, ◌-◌, ◌*◌, ◌/◌, ◌%◌, ◌^◌, ◌≤◌, ◌<◌, ◌≡◌, refl, arith, false, ne→==, ltb, some,
  ◌∙◌,
}
use nbos.Base.Bytes.{Bytes}
use nbos.Memory.Copy.{memmov, memmov_at}
use nbos.File.Disk.{
  Disk, k_readsector, sector_of, write_block, write_block_self, super_block_sector,
}
use nbos.File.Layout.{Inode}
use nbos.File.Bitmap.{alloc_block}
use nbos.File.Content.{OpenFile, write_loop, write_file, grown}
use nbos.File.Content.Refine.{block_at}

write_loop-done :
    (fuel : ℕ) (d : Disk) (i : Inode) (buf : Bytes) (start offset : ℕ)
    → write_loop fuel d i buf start 0 offset ≡ (i, d)
unfolding write_loop
write_loop-done zero d i buf start offset = refl
write_loop-done (suc fuel) d i buf start offset = refl

-- A write of up to the end of a block that is not allocated yet, at an offset below the limit of the
-- file's size, puts its bytes into the super block: byte `k` of the buffer lands in sector 300.
pub write_file-hits_super_block :
    (d : Disk) (file : OpenFile) (i : Inode) (buf : Bytes) (size k : ℕ)
    → block_at i (file.offset / 512) ≡ 0
    → file.offset % 512 + size ≤ 512
    → file.offset + size ≤ 20 * 512
    → k < size
    → (i' : Inode) × (d' : Disk) × (write_file d file i buf size
        ≡ some (i', record file { offset = file.offset + size }, d'))
      × (d' super_block_sector (file.offset % 512 + k) ≡ buf k)
unfolding write_file write_loop k_readsector
write_file-hits_super_block d file i buf zero k unset one_block fits hk = absurd (omega arith)
write_file-hits_super_block d file i buf (suc size) k unset one_block fits hk =
    let offset : ℕ = file.offset in
    let now : Inode × Disk = grown d i (alloc_block d i) in
    let left : ℕ = min (512 - offset % 512) (suc size) in
    let arr : Bytes = memmov buf 0 (now.1 (sector_of 0)) (offset % 512) left in
    let d' : Disk = write_block now.1 arr 0 in
    let whole : left ≡ suc size = omega arith in
    let none_left : suc size - left ≡ 0 = omega arith in
    let word : (offset + suc size) % 2 ^ 32 ≡ offset + suc size = omega arith in
    let allowed : ltb (20 * 512) (offset + suc size) ≡ false = ground arith in
    (
      now.0,
      d',
      rw (
        unset,
        none_left,
        word,
        write_loop-done size d' now.0 buf (0 + left) (offset + left),
        allowed,
        ne→== (suc size) 0 (omega arith),
      ),
      write_block_self now.1 arr 0 (offset % 512 + k) (omega arith)
          ∙ memmov_at left buf 0 (now.1 (sector_of 0)) (offset % 512) (offset % 512 + k)
          ∙ ground (arith, whole),
    )

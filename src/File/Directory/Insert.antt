-- ===== src/File/Directory/Insert.antt =====
-- Writing an item into the root directory, and looking it up.
use nbos.Base.{
  ℕ, ◌+◌, ◌-◌, ◌^◌, ◌≤◌, ◌<◌, ◌≡◌, ◌∙◌, arith, some, ltb, leb, ◌&&◌, if◌then◌else◌, get_elem?,
}
use nbos.Base.Bytes.{
  Bytes, read32, write32, read32_eq, read32-write32_self, read32-write32_ne, write32_out,
}
use nbos.Memory.Copy.{memmov, memmov_at}
use nbos.File.Disk.{Disk, sector_of, write_block}
use nbos.File.Layout.{Inode}
use nbos.File.Directory.{put_item, item_place, room_for, write_directory}
use nbos.File.Directory.Paths.{
  IsRootFile, strsize-name, strcount-path, last_name-path, copy-IsRootFile, path_copy-path,
}

item_place-first : (size : ℕ) → size + 28 ≤ 512 → item_place size ≡ (0, size)
unfolding item_place
item_place-first size hi = ground arith

room_for-first :
    (d : Disk) (base : Inode) (index : ℕ) → base.size + 28 ≤ 512 → room_for d base index ≡ (base, d)
unfolding room_for
room_for-first d base index hi = ground arith

-- The bytes of a block with an item put in.
module _ (block : Bytes) (offset : ℕ) (i : Inode) (m : Bytes) (name n : ℕ) (short : n < 20) where
  filled : Bytes
  filled = write32 (write32 block (offset + 24) i.my_inode_offset) (offset + 20) i.my_inode_block_no

  put_item_at :
      (k : ℕ)
      → put_item block offset i m name n k
        ≡ (if leb offset k && ltb k (offset + (n + 1)) then m (name + (k - offset)) else filled k)
  unfolding put_item filled
  put_item_at k = memmov_at (n + 1) m name filled offset k

  pub put_item-before : (k : ℕ) → k < offset → put_item block offset i m name n k ≡ block k
  unfolding filled
  put_item-before k lt =
      put_item_at k
      ∙ ground (
        arith,
        write32_out (write32 block (offset + 24) i.my_inode_offset) (offset + 20)
            i.my_inode_block_no k,
        write32_out block (offset + 24) i.my_inode_offset k,
      )

  pub put_item-name : (j : ℕ) → j < n → put_item block offset i m name n (offset + j) ≡ m (name + j)
  put_item-name j lt = put_item_at (offset + j) ∙ ground arith

  behind_name : (k : ℕ) → offset + 20 ≤ k → put_item block offset i m name n k ≡ filled k
  behind_name k lo = put_item_at k ∙ ground arith

  pub put_item-place :
      i.my_inode_block_no < 2 ^ 32
      → i.my_inode_offset < 2 ^ 32
      → (read32 (put_item block offset i m name n) (offset + 20) ≡ i.my_inode_block_no)
        × (read32 (put_item block offset i m name n) (offset + 24) ≡ i.my_inode_offset)
  unfolding filled
  put_item-place hb ho = (
    read32_eq _ filled (offset + 20) (behind_name _ (omega arith)) (behind_name _ (omega arith))
          (behind_name _ (omega arith)) (behind_name _ (omega arith))
        ∙ read32-write32_self (write32 block (offset + 24) i.my_inode_offset) (offset + 20)
            i.my_inode_block_no hb,
    read32_eq _ filled (offset + 24) (behind_name _ (omega arith)) (behind_name _ (omega arith))
          (behind_name _ (omega arith)) (behind_name _ (omega arith))
        ∙ read32-write32_ne (write32 block (offset + 24) i.my_inode_offset) (offset + 20)
            i.my_inode_block_no (offset + 24) (omega arith)
        ∙ read32-write32_self block (offset + 24) i.my_inode_offset ho,
  )

-- `writeDirectory` where the item fits into the directory's only block.
module _ (behind : Bytes) (d : Disk) (base : Inode) (b : ℕ) (m : Bytes) (path n : ℕ) (i : Inode)
    (file : IsRootFile m path n) (fits : base.size + 28 ≤ 512)
    (slot : get_elem? base.block_no 0 ≡ some b) where
  pub write_directory-one_block :
      write_directory behind d base m path i
      ≡ some (
        base,
        write_block d
            (put_item (d (sector_of b)) base.size i (memmov m path behind 0 (n + 1 + 1)) 1 n)
            b,
      )
  unfolding write_directory
  write_directory-one_block =
      let file' = copy-IsRootFile m path n behind file in
      let c : Bytes = memmov m path behind 0 (n + 1 + 1) in
      rw (
        path_copy-path m path n behind file,
        strcount-path c 0 n file',
        last_name-path c 0 n file',
        strsize-name c 0 n file',
        item_place-first base.size fits,
        room_for-first d base 0 fits,
        slot,
      )

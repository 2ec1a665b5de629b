-- ===== src/File/Inodes.antt =====
-- The inode operations of file.c: `read_superBlock`, `write_superBlock`, `read_inode`, `writeInode`,
-- `allocInode`, `getRootDirInode`, and the initialisers `init_superBlock` and `init_inodeList`.
-- `behind` stands for bytes of the stack that the code copies or keeps without setting them.
pub mod RoundTrip
pub mod Chain
pub mod Init
use nbos.Base.{
  ℕ, zero, suc, ◌+◌, ◌*◌, ◌-◌, Option, none, some, List, [], ◌∷◌, ◌==◌, if◌then◌else◌, replicate,
}
use nbos.Base.Bytes.{Bytes, write32, read32}
use nbos.File.Disk.{Disk, k_readsector, super_block_sector, read_block, write_block}
use nbos.File.Layout.{
  Inode, SuperBlock, max_blocks_in_file, inode_size, encode_inode, decode_inode, encode_super,
  decode_super,
}

unfoldable pub read_super_block : Disk → SuperBlock
unfolding k_readsector
read_super_block d = decode_super (k_readsector d super_block_sector)

-- `write_block` copies 512 bytes from the 36 of the structure on: `behind` is the rest.
unfoldable pub write_super_block : Bytes → Disk → SuperBlock → Disk
write_super_block behind d sb = write_block d (encode_super sb behind) 0

unfoldable pub read_inode : Disk → ℕ → ℕ → Inode
unfolding k_readsector
read_inode d inode_block_no inode_offset = decode_inode (read_block d inode_block_no) inode_offset

unfoldable pub write_inode : Disk → Inode → Disk
unfolding k_readsector
write_inode d i =
    write_block d (encode_inode i (read_block d i.my_inode_block_no) i.my_inode_offset)
      i.my_inode_block_no

-- `none` is the result -1, with nothing written.
unfoldable pub alloc_inode : Bytes → Disk → Option (Inode × Disk)
alloc_inode behind d =
    let sb = read_super_block d in
    let i = read_inode d sb.free_inode_block_no sb.free_inode_offset in
    if sb.free_inode_block_no == 0
    then none
    else some (
      record i {
        my_inode_block_no = sb.free_inode_block_no;
        my_inode_offset = sb.free_inode_offset;
        block_no = replicate max_blocks_in_file 0;
      },
      write_super_block behind d (record sb {
        free_inode_offset = i.next_inode_offset;
        free_inode_block_no = i.next_inode_block_no;
      }),
    )

unfoldable pub get_root_dir_inode : Disk → Inode
get_root_dir_inode d =
    let sb = read_super_block d in read_inode d sb.rootdir_inode_block_no sb.rootdir_inode_offset

abbrev pub inode_block_size : ℕ
inode_block_size = 50

abbrev pub data_block_bit_size : ℕ
data_block_bit_size = 5

-- The root directory's fields are not set here: they are what the stack holds.
unfoldable pub init_super_block : Bytes → Disk → Disk
init_super_block behind d = write_super_block behind d (record {
  free_inode_block_no = 1;
  free_inode_offset = 0;
  rootdir_inode_block_no = read32 behind 8;
  rootdir_inode_offset = read32 behind 12;
  data_block_bit_no = 51 ∷ 52 ∷ 53 ∷ 54 ∷ 55 ∷ [];
})

-- The inode `j` of the block `i`: its own place, and the place of the next inode.
unfoldable pub fill_inode : ℕ → ℕ → Bytes → Bytes
fill_inode i j arr =
    let o = j * inode_size in
    let own = write32 (write32 arr (o + 28) i) (o + 32) (j * inode_size) in
    if j == 3
    then write32 (write32 own (o + 20) (i + 1)) (o + 24) 0
    else write32 (write32 own (o + 20) i) (o + 24) ((j + 1) * inode_size)

-- The inner loop: `BLOCK_SIZE / sizeof(struct inode)` is 4.
unfoldable pub fill_block : ℕ → Bytes → Bytes
fill_block i arr =
    let filled = fill_inode i 3 (fill_inode i 2 (fill_inode i 1 (fill_inode i 0 arr))) in
    if i == inode_block_size then write32 (write32 filled 372 0) 368 0 else filled

-- The outer loop, with `n` rounds left; `behind` is the buffer before it is filled.
unfoldable pub init_inode_blocks : Bytes → ℕ → ℕ → Disk → Disk
init_inode_blocks behind zero i d = d
init_inode_blocks behind (suc n) i d =
    init_inode_blocks behind n (i + 1) (write_block d (fill_block i behind) i)

unfoldable pub init_inode_list : Bytes → Disk → Disk
unfolding init_inode_blocks
init_inode_list behind d = init_inode_blocks behind inode_block_size 1 d

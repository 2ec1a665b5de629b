-- ===== src/File/Directory/Tests.antt =====
-- The theorems on directories at a disk whose root directory has the file "a".
use native.Mathlib.Omega.{arith}
use mathlib.Core.Path.{◌≡◌, refl}
use nbos.Base.{ℕ, zero, suc, ◌+◌, ◌<◌, ◌≢◌, some, [], ◌∷◌, ◌==◌, if◌then◌else◌, replicate}
use nbos.Base.Bytes.{Bytes, read32, write32, read_words, write_words, read16, write8}
use nbos.File.Disk.{Disk, sector_of}
use nbos.File.Layout.{
  Inode, SuperBlock, encode_inode, encode_super, decode_inode, decode_super, inode_words,
  super_words,
}
use nbos.File.Inodes.{read_inode, read_super_block, get_root_dir_inode}
use nbos.File.Directory.{write_directory, seek_file_inode, slash}
use nbos.File.Directory.Paths.{IsRootFile}
use nbos.File.Directory.Lookup.{NameAt, OneBlock}
use nbos.File.Directory.Missing.{seek_file_inode-missing}
use nbos.File.Directory.Created.{RootBlock, seek_file_inode-write_directory}

abbrev zeros : Bytes
zeros k = 0

abbrev root_inode : Inode
root_inode = record {
  size = 28;
  atime = 0;
  mtime = 0;
  ctime = 0;
  mode = 1;
  next_inode_block_no = 0;
  next_inode_offset = 0;
  my_inode_block_no = 1;
  my_inode_offset = 0;
  block_no = 56 ∷ replicate 19 0;
}

abbrev new_inode : Inode
new_inode = record root_inode {
  size = 0;
  mode = 0;
  my_inode_offset = 232;
  block_no = replicate 20 0;
}

abbrev super_block : SuperBlock
super_block = record {
  free_inode_block_no = 1;
  free_inode_offset = 232;
  rootdir_inode_block_no = 1;
  rootdir_inode_offset = 0;
  data_block_bit_no = 51 ∷ 52 ∷ 53 ∷ 54 ∷ 55 ∷ [];
}

-- The item of the file "a", whose inode is at 116 of the block 1.
abbrev items : Bytes
items k = if k == 0 then 97 else if k == 20 then 1 else if k == 24 then 116 else 0

abbrev disk : Disk
disk s =
    if s == 300
    then encode_super super_block zeros
    else if s == 301
    then encode_inode root_inode zeros 0
    else if s == 356
    then items
    else zeros

-- "/b" at the address 8.
abbrev memory : Bytes
memory k = if k == 8 then 47 else if k == 9 then 98 else 0

path-IsRootFile : IsRootFile memory 8 1
path-IsRootFile = record {
  root = refl;
  some_char = omega arith;
  short = omega arith;
  chars = chars;
  end = refl;
}
  where
    chars : (j : ℕ) → j < 1 → (memory (8 + 1 + j) ≢ slash) × (memory (8 + 1 + j) ≢ 0)
    chars zero lt = (λ e. absurd (omega (arith, e)), λ e. absurd (omega (arith, e)))
    chars (suc j) lt = absurd (omega arith)

root-OneBlock : OneBlock (get_root_dir_inode disk) 56
unfolding get_root_dir_inode read_super_block decode_super read_words read32 encode_super
    write_words write32 write8 super_words read_inode decode_inode encode_inode inode_words read16
root-OneBlock = record { some_item = omega arith; one = omega arith; slot = refl }

root-RootBlock : RootBlock disk 56
unfolding read_super_block decode_super read_words read32 encode_super write_words write32 write8
    super_words
root-RootBlock = record {
  one = root-OneBlock;
  not_super = λ e. absurd (omega (arith, e));
  bound = omega arith;
  elsewhere = λ e. absurd (omega (arith, e));
  root_bound = omega arith;
}

absent : (j : ℕ) → ¬ NameAt memory 8 1 (disk (sector_of 56)) j
absent j stands = absurd (ground (arith, stands 0 (omega arith)))

root_size : (get_root_dir_inode disk).size ≡ 28
unfolding get_root_dir_inode read_super_block decode_super read_words read32 encode_super
    write_words write32 write8 super_words read_inode decode_inode encode_inode inode_words read16
root_size = refl

seek_file_inode-write_directory_example :
    (d' : Disk) × (write_directory zeros disk (get_root_dir_inode disk) memory 8 new_inode
      ≡ some (get_root_dir_inode disk, d'))
    × (seek_file_inode zeros d' memory 8 ≡ some (read_inode disk 1 232))
seek_file_inode-write_directory_example =
    seek_file_inode-write_directory zeros zeros disk 56 memory 8 1 new_inode root-RootBlock
      path-IsRootFile (omega (arith, root_size)) (λ j lt. absent j) (rw root_size refl)
      (omega arith) (omega arith) (λ e. absurd (omega (arith, e)))

seek_file_inode-missing_example :
    seek_file_inode zeros disk memory 8 ≡ some (get_root_dir_inode disk)
seek_file_inode-missing_example =
    seek_file_inode-missing zeros disk 56 1 memory 8 root-OneBlock path-IsRootFile
      (λ e. absurd (omega (arith, e))) (λ j lt. absent j)

-- ===== src/File/Format.antt =====
-- What `init_file` of file.c puts on the disk: the super block, the inodes, the bitmap, the root
-- directory and the two user programs.
use nbos.Base.{ℕ, zero, suc, ◌+◌, ◌-◌, Option, some, [], ◌∷◌, set, get_or}
use nbos.Base.Partial.{◌>>=◌}
use nbos.Base.Bytes.{Bytes}
use nbos.File.Disk.{Disk}
use nbos.File.Layout.{Inode}
use nbos.File.Inodes.{
  read_super_block, write_super_block, write_inode, alloc_inode, get_root_dir_inode,
  init_super_block, init_inode_list,
}
use nbos.File.Bitmap.{alloc_block, update_data_block_bit, updated, block_busy, init_data_block_bit}
use nbos.File.Content.{grown}
use nbos.File.Directory.{write_directory, dir_item_size}

abbrev pub regular_file : ℕ
regular_file = 0

abbrev pub directory_file : ℕ
directory_file = 1

-- `create_rootDir`. Where `allocInode` fails, the inode has no value; the result of `allocBlock` is
-- not looked at.
unfoldable pub create_root_dir : Bytes → Disk → Option Disk
create_root_dir behind d = do
  (i, d1) ← alloc_inode behind d
  let (i', d2) = grown d1 i (alloc_block d1 i)
  let root = record i' { mode = directory_file; size = 0 }
  let d3 = write_inode d2 root
  let sb = read_super_block d3
  some (
      write_super_block behind d3 (record sb {
        rootdir_inode_offset = root.my_inode_offset;
        rootdir_inode_block_no = root.my_inode_block_no;
      }))

-- A program's blocks, `n` of them from the slot `j` on: its sectors, as blocks behind the super block.
unfoldable pub program_blocks : ℕ → ℕ → ℕ → Inode → Disk → Inode × Disk
program_blocks zero first j i d = (i, d)
program_blocks (suc n) first j i d =
    program_blocks n first (j + 1) (record i { block_no = set i.block_no j (first + j) })
      (updated d (update_data_block_bit d (first + j) block_busy))

-- An item of the root directory, whose size is then raised by the item.
unfoldable pub add_program : Bytes → Disk → Inode → Bytes → Inode → Option (Inode × Disk)
add_program behind d root path i = do
  (root', d') ← write_directory behind d root path 0 i
  let grown_root = record root' { size = root'.size + dir_item_size }
  some (grown_root, write_inode d' grown_root)

-- `SHELL_SECTOR` and `SHELL_BLOCKS`, `MYPRO_SECTOR` and `MYPRO_BLOCKS`.
abbrev pub shell_sector : ℕ
shell_sector = 357

abbrev pub mypro_sector : ℕ
mypro_sector = 372

abbrev pub program_size : ℕ
program_size = 15

-- "/shell" and "/mypro"
abbrev pub shell_path : Bytes
shell_path k = get_or (47 ∷ 115 ∷ 104 ∷ 101 ∷ 108 ∷ 108 ∷ []) k 0

abbrev pub mypro_path : Bytes
mypro_path k = get_or (47 ∷ 109 ∷ 121 ∷ 112 ∷ 114 ∷ 111 ∷ []) k 0

-- The sizes of the two inodes are not set: they are what the disk held.
unfoldable pub init_userpro : Bytes → Disk → Option Disk
unfolding program_blocks
init_userpro behind d = do
  (in_mypro, d1) ← alloc_inode behind d
  (in_shell, d2) ← alloc_inode behind d1
  let (in_shell', d3) = program_blocks program_size (shell_sector - 300) 0 in_shell d2
  let (in_mypro', d4) = program_blocks program_size (mypro_sector - 300) 0 in_mypro d3
  let shell = record in_shell' { mode = regular_file }
  let mypro = record in_mypro' { mode = regular_file }
  let d5 = write_inode (write_inode d4 shell) mypro
  (root, d6) ← add_program behind d5 (get_root_dir_inode d5) shell_path shell
  (root', d7) ← add_program behind d6 root mypro_path mypro
  some d7

-- What `init_file` does to the disk; `behind` is what the buffers hold before they are filled.
unfoldable pub init_file : Bytes → Disk → Option Disk
init_file behind d = do
  let d1 = init_data_block_bit (init_inode_list behind (init_super_block behind d))
  d2 ← create_root_dir behind d1
  init_userpro behind d2

-- ===== src/Syscall/Create.antt =====
-- `sys_creat` of syscall.c for a file of the root directory.
use nbos.Base.{
  ℕ, ◌+◌, ◌-◌, ◌%◌, ◌^◌, ◌≤◌, ◌<◌, ◌≡◌, ◌≢◌, ◌⊎◌, sym, ap, ◌∙◌, arith, some, List, get_elem?,
}
use mathlib.Core.Path.{subst}
use nbos.Base.Bytes.{Bytes, read32}
use nbos.Memory.Copy.{memmov, put}
use nbos.File.Disk.{Disk, sector_of, write_block_ne}
use nbos.File.Layout.{Inode, InodeFits, SuperBlock, inode_size, decode_super}
use nbos.File.Inodes.{read_inode, write_inode, read_super_block, get_root_dir_inode, alloc_inode}
use nbos.File.Inodes.RoundTrip.{read_inode-write_inode_self, read_inode-write_inode_ne}
use nbos.File.Bitmap.{alloc_block}
use nbos.File.Content.{OpenFile}
use nbos.File.Directory.{seek_file_inode, seek_base_directory}
use nbos.File.Directory.Paths.{IsRootFile, findlastsprt-path, copy-IsRootFile, path_copy-path}
use nbos.File.Directory.Lookup.{NameAt, OneBlock, seek_file_inode-item}
use nbos.File.Directory.Created.{
  RootBlock, read_inode_elsewhere, after, new_name, new_place, new_first, write_directory-after,
}
use nbos.File.Table.{get_min_fd, set_open_file_list}
use nbos.Process.{Fd, Pcb}
use nbos.Syscall.{Machine, ret, opened, entry, sys_creat, create_in, o_rdwr}
use nbos.Syscall.Open.{sys_open-opened}

-- The directory of "/name" is the root directory.
pub seek_base_directory-path :
    (behind : Bytes) (d : Disk) (m : Bytes) (path n : ℕ)
    → IsRootFile m path n
    → seek_base_directory behind d m path ≡ some (get_root_dir_inode d)
unfolding seek_base_directory put
seek_base_directory-path behind d m path n file = rw (
  path_copy-path m path n behind file,
  findlastsprt-path (memmov m path behind 0 (n + 1 + 1)) 0 n (copy-IsRootFile m path n behind file),
)

-- An inode whose place is neither in the root directory's block, nor in the super block, nor that of the
-- root directory's inode.
pub record Apart (d : Disk) (b : ℕ) (i : Inode) : Type 0 where
  pub fields : InodeFits i
  pub room : i.my_inode_offset + inode_size ≤ 512
  pub not_super : i.my_inode_block_no ≢ 0
  pub not_items : i.my_inode_block_no ≢ b
  pub root_room : (read_super_block d).rootdir_inode_offset + inode_size ≤ 512
  pub not_root :
      ((read_super_block d).rootdir_inode_block_no ≢ i.my_inode_block_no)
      ⊎ (((read_super_block d).rootdir_inode_offset + inode_size ≤ i.my_inode_offset)
          ⊎ (i.my_inode_offset + inode_size ≤ (read_super_block d).rootdir_inode_offset))

-- The disk `now`, after `writeDirectory` and `writeInode`.
module _ (behind : Bytes) (d : Disk) (b : ℕ) (m : Bytes) (path n : ℕ) (i : Inode)
    (root : RootBlock d b) (file : IsRootFile m path n)
    (fits : (get_root_dir_inode d).size + 28 ≤ 512) (apart : Apart d b i) where
  abbrev listed : Disk
  listed = after behind d b m path n i root file fits

  unfoldable pub now : Disk
  now = write_inode listed i

  items_same : now (sector_of b) ≡ listed (sector_of b)
  unfolding now write_inode
  items_same =
      write_block_ne listed _ i.my_inode_block_no b apart.fields.my_block
        (omega (arith, root.bound)) (λ e. apart.not_items (sym e))

  super_now : read_super_block now ≡ read_super_block d
  unfolding now read_super_block write_inode after
  super_now =
      ap decode_super (
        write_block_ne listed _ i.my_inode_block_no 0 apart.fields.my_block (omega arith)
          (λ e. apart.not_super (sym e)))
      ∙ ap decode_super (
          write_block_ne d _ b 0 (omega (arith, root.bound)) (omega arith)
            (λ e. root.not_super (sym e)))

  root_now : get_root_dir_inode now ≡ get_root_dir_inode d
  unfolding get_root_dir_inode now after
  root_now =
      ap (λ (s : SuperBlock). read_inode now s.rootdir_inode_block_no s.rootdir_inode_offset)
        super_now
      ∙ read_inode-write_inode_ne listed i apart.fields _ _ root.root_bound apart.root_room
          apart.not_root
      ∙ read_inode_elsewhere d _ b _ _ (omega (arith, root.bound)) root.root_bound root.elsewhere

  inode_now : read_inode now i.my_inode_block_no i.my_inode_offset ≡ i
  unfolding now
  inode_now = read_inode-write_inode_self listed i apart.fields apart.room

  pub seek_file_inode-now :
      (behind2 : Bytes)
      → ((j : ℕ) → j + n < (get_root_dir_inode d).size → ¬ NameAt m path n (d (sector_of b)) j)
      → d (sector_of b) ((get_root_dir_inode d).size - 1) ≡ 0
      → seek_file_inode behind2 now m path ≡ some i
  seek_file_inode-now behind2 absent gap =
      let size = (get_root_dir_inode d).size in
      let (block_no, offset) =
        new_place behind d b m path n i root file fits apart.fields.my_block
          apart.fields.my_offset in
      let at : (k : ℕ) → now (sector_of b) k ≡ listed (sector_of b) k =
        λ k. ap (λ (s : Bytes). s k) items_same in
      seek_file_inode-item behind2 now b size n m path
        (subst (λ (r : Inode). OneBlock r b) (sym root_now) root.one) (omega (arith, fits)) file
        (λ j lt. new_name behind d b m path n i root file fits j lt ∙ sym (at (size + j)))
        (λ j lt stands.
          new_first behind d b m path n i root file fits absent gap j lt
            (λ k hk. stands k hk ∙ at (j + k)))
      ∙ ap (λ (r : Inode). some r)
          (ap (λ (s : Bytes). read_inode now (read32 s (size + 20)) (read32 s (size + 24)))
              items_same
            ∙ ap (λ (c : ℕ). read_inode now c (read32 (listed (sector_of b)) (size + 24))) block_no
            ∙ ap (λ (o : ℕ). read_inode now i.my_inode_block_no o) offset
            ∙ inode_now)

-- Let `allocInode` and `allocBlock` succeed with the inode `i` and the disk `d2`, on which the root
-- directory is the block `b` with 28 bytes free and a 0 as the last byte in use, and where the place of `i`
-- is apart from the root directory. The path is "/name", of 1 to 19 characters that stand nowhere before
-- in the directory; the current process has a descriptor left and the table of open files an entry. Then
-- `sys_creat` returns a descriptor that was closed before and leads to an entry for reading and writing;
-- on the disk, the inode at the entry's place is `i` with the mode of the call, and the inode of the
-- root directory, with its size, is as before the new item.
pub sys_creat-opened :
    (behind : ℕ → Bytes) (path n mode fd index b : ℕ) (m : Machine) (p : Pcb) (i1 i : Inode)
    (d1 d2 : Disk) (files : List OpenFile)
    → alloc_inode (behind 0) m.disk ≡ some (i1, d1)
    → alloc_block d1 i1 ≡ some (i, d2)
    → RootBlock d2 b
    → IsRootFile m.memory path n
    → (get_root_dir_inode d2).size + 28 ≤ 512
    → ((j : ℕ)
        → j + n < (get_root_dir_inode d2).size
        → ¬ NameAt m.memory path n (d2 (sector_of b)) j)
    → d2 (sector_of b) ((get_root_dir_inode d2).size - 1) ≡ 0
    → Apart d2 b (record i { mode = mode % 2 ^ 16 })
    → get_elem? m.kernel.pcblist m.kernel.current ≡ some p
    → get_min_fd p ≡ some fd
    → set_open_file_list o_rdwr (record i { mode = mode % 2 ^ 16 }) m.file_list
      ≡ some (index, files)
    → (m' : Machine) × (f : Fd) × (file : OpenFile) × (sys_creat behind path mode m ≡ ret fd m')
      × ((get_elem? p.fdlist fd ≡ some f) × (f.open_flag ≡ 0))
      × (opened fd m' ≡ entry index file)
      × (file.oflags ≡ o_rdwr)
      × (read_inode m'.disk file.f_inode_block_no file.f_inode_offset
          ≡ record i { mode = mode % 2 ^ 16 })
      × (get_root_dir_inode m'.disk ≡ get_root_dir_inode d2)
unfolding sys_creat now create_in
sys_creat-opened behind path n mode fd index b m p i1 i d1 d2 files found_inode found_block root
      file fits absent gap apart current free room =
    let new = record i { mode = mode % 2 ^ 16 } in
    let disk = now (behind 2) d2 b m.memory path n new root file fits apart in
    let (
      m',
      f,
      old,
      opened_file,
      ran,
      (lo, slot, shut),
      at,
      leads,
      (open_now, flags, block, place, rest),
      kept,
    ) =
      sys_open-opened (behind 3) path o_rdwr fd index (record m { disk = disk }) p new files
        (seek_file_inode-now (behind 2) d2 b m.memory path n new root file fits apart (behind 3)
          absent gap)
        current free room in
    (
      m',
      f,
      opened_file,
      rw
          (
            sys_creat,
            found_inode,
            found_block,
            create_in,
            seek_base_directory-path (behind 1) d2 m.memory path n file,
            write_directory-after (behind 2) d2 b m.memory path n new root file fits,
          )
          ran,
      (slot, shut),
      leads,
      flags,
      ap (λ (e : Disk). read_inode e opened_file.f_inode_block_no opened_file.f_inode_offset) kept
          ∙ ap (λ (c : ℕ). read_inode disk c opened_file.f_inode_offset) block
          ∙ ap (λ (o : ℕ). read_inode disk i.my_inode_block_no o) place
          ∙ inode_now (behind 2) d2 b m.memory path n new root file fits apart,
      ap get_root_dir_inode kept
          ∙ root_now (behind 2) d2 b m.memory path n new root file fits apart,
    )

-- ===== src/File/Directory.antt =====
-- Directories in file.c: looking a path up, and writing an item. A path lies at an address of the
-- memory that the caller gives; the buffers of 100 bytes for paths and of 20 bytes for names hold what
-- the stack held before (`behind`). A text that does not fit into its buffer is the result `none`.
pub mod Paths
pub mod Lookup
pub mod Missing
pub mod Insert
pub mod Created
pub mod FreeSpace
mod Tests
use nbos.Base.{
  ℕ, zero, suc, ◌+◌, ◌-◌, ◌*◌, ◌/◌, ◌%◌, ◌^◌, Bool, true, false, not, ◌&&◌, Option, none, some,
  List, [], ◌∷◌, ◌==◌, ltb, leb, if◌then◌else◌, get_elem?, get_or,
}
use nbos.Base.Partial.{◌>>=◌}
use nbos.Base.Bytes.{Bytes, read32, write32}
use nbos.Base.Int.{ℤ, pos, negsuc}
use nbos.Memory.Copy.{memmov, put}
use nbos.Strings.{
  strsize, strcut, strmatch, MatchResult, strcmpa, says_same, findfirstsprt, findlastsprt, strcount,
}
use nbos.File.Disk.{Disk, read_block, write_block, k_readsector}
use nbos.File.Layout.{Inode, SuperBlock}
use nbos.File.Inodes.{
  read_super_block, write_super_block, read_inode, write_inode, alloc_inode, get_root_dir_inode,
}
use nbos.File.Bitmap.{alloc_block, update_data_block_bit, updated, block_busy}
use nbos.File.Content.{grown}

abbrev pub file_name_max : ℕ
file_name_max = 20

-- The arrays that hold a path.
abbrev pub path_max : ℕ
path_max = 100

-- `sizeof(struct dir_item)`
abbrev pub dir_item_size : ℕ
dir_item_size = 28

abbrev pub slash : ℕ
slash = 47

-- "/", as `ROOT_DIR` or a separator.
abbrev pub root_dir : Bytes
root_dir k = if k == 0 then slash else 0

-- How the loop over a directory's blocks ends: at an offset of a block, without a match, or
-- where `strmatch` has no defined result.
pub data Match : Type 0 where
  at : ℕ → Bytes → Match
  nowhere : Match
  unclear : Match

abbrev pub match_in : Bytes → Match → Option MatchResult → Match
match_in block rest none = unclear
match_in block rest (some (MatchResult.found offset)) = Match.at offset block
match_in block rest (some MatchResult.missing) = rest
match_in block rest (some MatchResult.undefined) = unclear

-- The loop with `n` blocks left, from the slot `i` on.
unfoldable pub match_blocks : Bytes → Disk → List ℕ → ℕ → ℕ → Match
unfolding k_readsector
match_blocks file_name d block_no zero i = nowhere
match_blocks file_name d block_no (suc n) i =
    let rest = match_blocks file_name d block_no n (i + 1) in
    elim (get_elem? block_no i) [
      | none ↦ unclear
      | some b ↦
          match_in (read_block d b) rest (strmatch file_name_max file_name (read_block d b) 512)
    ]

-- The number of blocks that a directory of this size takes.
unfoldable pub dir_blocks : ℕ → ℕ
dir_blocks size = if ltb 0 (size % 512) then size / 512 + 1 else size / 512

abbrev pub sought : Disk → Inode → Match → Option (Bool × Inode)
sought d i (Match.at offset block) =
    some (true, read_inode d (read32 block (offset + 20)) (read32 block (offset + 24)))
sought d i nowhere = some (false, i)
sought d i unclear = none

-- `seekNextInode`: whether it found the name that the path starts with, and the inode at `iptr`. Its
-- result is -1 where it did not; otherwise no value is returned.
unfoldable pub seek_next_inode : Bytes → Disk → Inode → Bytes → ℕ → Option (Bool × Inode)
unfolding dir_blocks
seek_next_inode behind d i m path = do
  file_name ← strcut file_name_max m path slash behind 0
  sought d i (match_blocks file_name d i.block_no (dir_blocks i.size) 0)

-- `path0 += a + 1` for the result `a` of `findfirstsprt`.
abbrev pub past : ℤ → ℕ
past (pos a) = a + 1
past (negsuc a) = 0

abbrev pub is_none : ℤ → Bool
is_none (pos a) = false
is_none (negsuc a) = true

-- The loop of `seekFileInode`, which moves on by a character at least in each round. It does not look
-- at what `seekNextInode` returns, and `iptr` is never a null pointer.
unfoldable pub seek_loop : ℕ → Bytes → Disk → Inode → Bytes → ℕ → Option Inode
seek_loop zero behind d i m path0 = none
seek_loop (suc fuel) behind d i m path0 =
    let rest = λ (next : Inode) (a : ℤ).
      if is_none a then some next else seek_loop fuel behind d next m (path0 + past a) in
    if m path0 == 0 then some i else (do
      next ← seek_next_inode behind d i m path0
      a ← findfirstsprt path_max m path0 slash
      rest next.1 a)

-- The path's copy in an array of 100 bytes.
unfoldable pub path_copy : Bytes → Bytes → ℕ → Option Bytes
path_copy behind m path = do
  size ← strsize path_max m path
  some (memmov m path behind 0 (size + 1))

abbrev is_root : Bytes → ℕ → Bool
is_root path0 size = says_same (strcmpa path0 0 root_dir 0 size)

-- `seekFileInode`, which always returns 0.
unfoldable pub seek_file_inode : Bytes → Disk → Bytes → ℕ → Option Inode
seek_file_inode behind d m path = do
  path0 ← path_copy behind m path
  size ← strsize path_max path0 0
  let root = get_root_dir_inode d
  first ← findfirstsprt path_max path0 0 slash
  if is_root path0 size then some root else seek_loop path_max behind d root path0 (past first)

abbrev pub cut_last : Bytes → ℤ → Bytes
cut_last path0 (pos last) = put path0 last 0
cut_last path0 (negsuc n) = path0

-- `seekBaseDirectory`
unfoldable pub seek_base_directory : Bytes → Disk → Bytes → ℕ → Option Inode
seek_base_directory behind d m path = do
  copy ← path_copy behind m path
  last ← findlastsprt path_max copy 0 slash
  let path0 = cut_last copy last
  if path0 0 == 0 then some (get_root_dir_inode d) else seek_file_inode behind d path0 0

-- The loop of `writeDirectory` over the `n` separators of the path.
unfoldable pub last_name : ℕ → Bytes → ℕ → Option ℕ
last_name zero m path0 = some path0
last_name (suc n) m path0 = do
  a ← findfirstsprt path_max m path0 slash
  if is_none a then some path0 else last_name n m (path0 + past a)

-- The item's bytes in the block: the place of the inode first, and then the name with its 0.
unfoldable pub put_item : Bytes → ℕ → Inode → Bytes → ℕ → ℕ → Bytes
put_item block offset i m name size =
    memmov m name
      (write32 (write32 block (offset + 24) i.my_inode_offset) (offset + 20) i.my_inode_block_no)
      offset (size + 1)

-- The slot of the directory's block for a new item, and the offset in it.
unfoldable pub item_place : ℕ → ℕ × ℕ
item_place size =
    if ltb 512 (size % 512 + dir_item_size) then (size / 512 + 1, 0) else (size / 512, size % 512)

-- The next block is allocated where the item does not fit into the last one and there is none yet.
-- The result of `allocBlock` is not looked at.
unfoldable pub room_for : Disk → Inode → ℕ → Inode × Disk
room_for d base index =
    if ltb 512 (base.size % 512 + dir_item_size) && (get_or base.block_no index 0 == 0)
    then grown d base (alloc_block d base)
    else (base, d)

-- `writeDirectory`: the directory's inode, which `allocBlock` may have changed, and the disk.
unfoldable pub write_directory : Bytes → Disk → Inode → Bytes → ℕ → Inode → Option (Inode × Disk)
unfolding k_readsector
write_directory behind d base m path i = do
  path0 ← path_copy behind m path
  count ← strcount path_max path0 0 slash
  name ← last_name count path0 0
  size ← strsize path_max path0 name
  let place = item_place base.size
  let now = room_for d base place.0
  b ← get_elem? now.0.block_no place.0
  some (now.0, write_block now.1 (put_item (read_block now.1 b) place.1 i path0 name size) b)

-- ===== src/File/Directory/Missing.antt =====
-- Looking up a name that the root directory does not have.
use nbos.Base.{ℕ, suc, ◌+◌, ◌<◌, ◌≡◌, ◌≢◌, ap, ◌∙◌, arith, false, some, ne→==}
use nbos.Base.Bytes.{Bytes}
use nbos.Memory.Copy.{memmov, memmov-front}
use nbos.Strings.First.{strmatch-missing}
use nbos.File.Disk.{Disk, k_readsector, sector_of}
use nbos.File.Layout.{Inode}
use nbos.File.Inodes.{get_root_dir_inode}
use nbos.File.Directory.{match_blocks, seek_next_inode, seek_loop, seek_file_inode, Match}
use nbos.File.Directory.Paths.{
  IsRootFile, strsize-path, findfirstsprt-path, findfirstsprt-name, strcut-name, path-is_not_root,
  copy-IsRootFile, path_copy-path,
}
use nbos.File.Directory.Lookup.{
  NameAt, OneBlock, dir_blocks-one, cut_name, cut_name_at, cut_name-IsText, Same-cut_name,
  NameAt-copy,
}

module _ (behind : Bytes) (d : Disk) (dir : Inode) (b n : ℕ) (one : OneBlock dir b) (m : Bytes)
    (path : ℕ) (file : IsRootFile m path n) (last : d (sector_of b) 511 ≢ m (path + 1))
    (absent : (j : ℕ) → j < 512 → ¬ NameAt m path n (d (sector_of b)) j) where
  unmatched : match_blocks (cut_name behind m path n file) d dir.block_no 1 0 ≡ Match.nowhere
  unfolding match_blocks k_readsector
  unmatched = rw (
    match_blocks,
    one.slot,
    strmatch-missing 20 (cut_name behind m path n file) (d (sector_of b)) 512 n
        (cut_name-IsText behind m path n file) (omega (arith, file.short)) (omega arith)
        (λ e. last (e ∙ cut_name_at behind m path n file 0 (omega arith) ∙ ap m (omega arith)))
        (λ j lt same. absent j lt (Same-cut_name behind m path n file (d (sector_of b)) j same)),
  )

  pub seek_next_inode-missing : seek_next_inode behind d dir m (path + 1) ≡ some (false, dir)
  unfolding seek_next_inode cut_name
  seek_next_inode-missing =
      rw
        (strcut-name m path n file behind, dir_blocks-one dir.size one.some_item one.one, unmatched)

  seek_loop-missing : (fuel : ℕ) → seek_loop (suc fuel) behind d dir m (path + 1) ≡ some dir
  unfolding seek_loop
  seek_loop-missing fuel = rw (
    ne→== (m (path + 1)) 0 (λ e. (file.chars 0 file.some_char).1 (ap m (omega arith) ∙ e)),
    seek_next_inode-missing,
    findfirstsprt-name m path n file,
  )

-- Where the root directory, of one block, has no such name, `seekFileInode` succeeds all the same: it
-- gives the inode of the root directory itself. The block's last byte is not the first of the name.
pub seek_file_inode-missing :
    (behind : Bytes) (d : Disk) (b n : ℕ) (m : Bytes) (path : ℕ)
    → OneBlock (get_root_dir_inode d) b
    → IsRootFile m path n
    → d (sector_of b) 511 ≢ m (path + 1)
    → ((j : ℕ) → j < 512 → ¬ NameAt m path n (d (sector_of b)) j)
    → seek_file_inode behind d m path ≡ some (get_root_dir_inode d)
unfolding seek_file_inode
seek_file_inode-missing behind d b n m path one file last absent = rw (
  path_copy-path m path n behind file,
  strsize-path copy 0 n copied,
  findfirstsprt-path copy 0 n copied,
  path-is_not_root copy 0 n copied,
  seek_loop-missing behind d (get_root_dir_inode d) b n one copy 0 copied
      (λ e.
        last
          (e ∙ memmov-front (n + 1 + 1) m path behind (0 + 1) (omega arith) ∙ ap m (omega arith)))
      (λ j lt stands. absent j lt (NameAt-copy m path n behind (d (sector_of b)) j stands)) 99,
)
  where
    copy : Bytes
    copy = memmov m path behind 0 (n + 1 + 1)

    copied : IsRootFile copy 0 n
    copied = copy-IsRootFile m path n behind file

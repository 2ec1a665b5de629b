-- ===== src/File/Directory/Lookup.antt =====
-- A file that `writeDirectory` put into the root directory is found by its path.
use nbos.Base.{ℕ, suc, ◌+◌, ◌≤◌, ◌<◌, ◌≡◌, sym, ap, ◌∙◌, arith, true, some, ne→==, get_elem?}
use nbos.Base.Bytes.{Bytes, read32}
use nbos.Memory.Copy.{memmov, memmov-front}
use nbos.Strings.Search.{IsText}
use nbos.Strings.Match.{Same}
use nbos.Strings.First.{strmatch-first}
use nbos.File.Disk.{Disk, k_readsector, sector_of}
use nbos.File.Layout.{Inode}
use nbos.File.Inodes.{read_inode, get_root_dir_inode}
use nbos.File.Directory.{
  dir_blocks, match_blocks, seek_next_inode, seek_loop, seek_file_inode, Match,
}
use nbos.File.Directory.Paths.{
  IsRootFile, strsize-path, findfirstsprt-path, findfirstsprt-name, strcut-name, path-is_not_root,
  copy-IsRootFile, path_copy-path,
}

-- The name of the file at `path` stands at `k` of a block.
abbrev pub NameAt : Bytes → ℕ → ℕ → Bytes → ℕ → Type 0
NameAt m path n block k = (j : ℕ) → j < n → m (path + 1 + j) ≡ block (k + j)

-- A directory whose only block is `b`.
pub record OneBlock (dir : Inode) (b : ℕ) : Type 0 where
  pub some_item : 0 < dir.size
  pub one : dir.size ≤ 512
  pub slot : get_elem? dir.block_no 0 ≡ some b

-- The name as `strcut` puts it into its buffer.
module _ (behind : Bytes) (m : Bytes) (path n : ℕ) (file : IsRootFile m path n) where
  unfoldable pub cut_name : Bytes
  cut_name = memmov m (path + 1) behind 0 (n + 1)

  pub cut_name_at : (j : ℕ) → j < n + 1 → cut_name j ≡ m (path + 1 + j)
  unfolding cut_name
  cut_name_at j lt = memmov-front (n + 1) m (path + 1) behind j lt

  pub cut_name-IsText : IsText cut_name 0 n
  cut_name-IsText = record {
    chars = λ j lt e.
        (file.chars j lt).1 (ap m (omega arith) ∙ sym (cut_name_at (0 + j) (omega arith)) ∙ e);
    end = cut_name_at (0 + n) (omega arith) ∙ ap m (omega arith) ∙ file.end;
  }

  pub cut_name-Same : (block : Bytes) (j : ℕ) → NameAt m path n block j → Same cut_name 0 block j n
  cut_name-Same block j stands i lt =
      cut_name_at (0 + i) (omega arith) ∙ ap m (omega arith) ∙ stands i lt

  pub Same-cut_name : (block : Bytes) (j : ℕ) → Same cut_name 0 block j n → NameAt m path n block j
  Same-cut_name block j same i lt =
      sym (cut_name_at (0 + i) (omega arith) ∙ ap m (omega arith)) ∙ same i lt

pub dir_blocks-one : (size : ℕ) → 0 < size → size ≤ 512 → dir_blocks size ≡ 1
unfolding dir_blocks
dir_blocks-one size lo hi = ground arith

module _ (behind : Bytes) (d : Disk) (dir : Inode) (b k n : ℕ) (one : OneBlock dir b)
    (inside : k < 512) (m : Bytes) (path : ℕ) (file : IsRootFile m path n)
    (here : NameAt m path n (d (sector_of b)) k)
    (before : (j : ℕ) → j < k → ¬ NameAt m path n (d (sector_of b)) j) where
  matched :
      match_blocks (cut_name behind m path n file) d dir.block_no 1 0 ≡ Match.at k (d (sector_of b))
  unfolding match_blocks k_readsector
  matched = rw (
    match_blocks,
    one.slot,
    strmatch-first 20 (cut_name behind m path n file) (d (sector_of b)) 512 n k
        (cut_name-IsText behind m path n file) (omega (arith, file.short)) file.some_char inside
        (cut_name-Same behind m path n file (d (sector_of b)) k here)
        (λ j lt same. before j lt (Same-cut_name behind m path n file (d (sector_of b)) j same)),
  )

  pub seek_next_inode-item :
      seek_next_inode behind d dir m (path + 1)
      ≡ some (
        true,
        read_inode d (read32 (d (sector_of b)) (k + 20)) (read32 (d (sector_of b)) (k + 24)),
      )
  unfolding seek_next_inode cut_name
  seek_next_inode-item =
      rw (strcut-name m path n file behind, dir_blocks-one dir.size one.some_item one.one, matched)

  -- The loop of `seekFileInode` ends behind the name.
  seek_loop-item :
      (fuel : ℕ)
      → seek_loop (suc fuel) behind d dir m (path + 1)
        ≡ some
            (read_inode d (read32 (d (sector_of b)) (k + 20)) (read32 (d (sector_of b)) (k + 24)))
  unfolding seek_loop
  seek_loop-item fuel = rw (
    ne→== (m (path + 1)) 0 (λ e. (file.chars 0 file.some_char).1 (ap m (omega arith) ∙ e)),
    seek_next_inode-item,
    findfirstsprt-name m path n file,
  )

-- A name that stands in a block by the path's copy stands there by the path.
pub NameAt-copy :
    (m : Bytes) (path n : ℕ) (behind block : Bytes) (j : ℕ)
    → NameAt (memmov m path behind 0 (n + 1 + 1)) 0 n block j
    → NameAt m path n block j
NameAt-copy m path n behind block j stands i lt =
    ap m (omega arith)
    ∙ sym (memmov-front (n + 1 + 1) m path behind (0 + 1 + i) (omega arith))
    ∙ stands i lt

-- In a root directory of one block, where the name of the path "/name" stands first at offset `k`,
-- `seekFileInode` reads the inode whose place stands behind the name's field.
pub seek_file_inode-item :
    (behind : Bytes) (d : Disk) (b k n : ℕ) (m : Bytes) (path : ℕ)
    → OneBlock (get_root_dir_inode d) b
    → k < 512
    → IsRootFile m path n
    → NameAt m path n (d (sector_of b)) k
    → ((j : ℕ) → j < k → ¬ NameAt m path n (d (sector_of b)) j)
    → seek_file_inode behind d m path
      ≡ some (read_inode d (read32 (d (sector_of b)) (k + 20)) (read32 (d (sector_of b)) (k + 24)))
unfolding seek_file_inode
seek_file_inode-item behind d b k n m path one inside file here before = rw (
  path_copy-path m path n behind file,
  strsize-path copy 0 n copied,
  findfirstsprt-path copy 0 n copied,
  path-is_not_root copy 0 n copied,
  seek_loop-item behind d (get_root_dir_inode d) b k n one inside copy 0 copied (at_copy k here)
      (λ j lt stands. before j lt (NameAt-copy m path n behind (d (sector_of b)) j stands)) 99,
)
  where
    copy : Bytes
    copy = memmov m path behind 0 (n + 1 + 1)

    copied : IsRootFile copy 0 n
    copied = copy-IsRootFile m path n behind file

    at_copy : (j : ℕ) → NameAt m path n (d (sector_of b)) j → NameAt copy 0 n (d (sector_of b)) j
    at_copy j stands i lt =
        memmov-front (n + 1 + 1) m path behind (0 + 1 + i) (omega arith)
        ∙ ap m (omega arith)
        ∙ stands i lt

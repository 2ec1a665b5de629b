-- ===== src/File/Directory/Created.antt =====
-- What `seekFileInode` finds after `writeDirectory`: the new file, and the files that were there.
use nbos.Base.{ℕ, ◌+◌, ◌-◌, ◌^◌, ◌≤◌, ◌<◌, ◌≡◌, ◌≢◌, sym, ap, ◌∙◌, arith, some}
use mathlib.Core.Path.{subst}
use native.Mathlib.Decide.{dec_le}
use nbos.Base.Bytes.{Bytes, read32, read32_eq}
use nbos.Memory.Copy.{memmov, memmov-front}
use nbos.File.Disk.{Disk, sector_of, write_block, write_block_self, write_block_ne}
use nbos.File.Layout.{Inode, decode_inode, decode_super}
use nbos.File.Inodes.{read_inode, read_super_block, get_root_dir_inode}
use nbos.File.Directory.{put_item, write_directory, seek_file_inode}
use nbos.File.Directory.Paths.{IsRootFile}
use nbos.File.Directory.Lookup.{NameAt, OneBlock, seek_file_inode-item}
use nbos.File.Directory.Insert.{
  put_item-before, put_item-name, put_item-place, write_directory-one_block,
}

-- A root directory of the one block `b`, which is neither the super block nor the block of its inode.
pub record RootBlock (d : Disk) (b : ℕ) : Type 0 where
  pub one : OneBlock (get_root_dir_inode d) b
  pub not_super : b ≢ 0
  pub bound : b < 2 ^ 31
  pub elsewhere : (read_super_block d).rootdir_inode_block_no ≢ b
  pub root_bound : (read_super_block d).rootdir_inode_block_no < 2 ^ 32

pub read_inode_elsewhere :
    (d : Disk) (arr : Bytes) (b c o : ℕ)
    → b < 2 ^ 32
    → c < 2 ^ 32
    → c ≢ b
    → read_inode (write_block d arr b) c o ≡ read_inode d c o
unfolding read_inode
read_inode_elsewhere d arr b c o hb hc ne =
    ap (λ (s : Bytes). decode_inode s o) (write_block_ne d arr b c hb hc ne)

get_root_dir_inode_same :
    (d : Disk) (arr : Bytes) (b : ℕ)
    → RootBlock d b
    → get_root_dir_inode (write_block d arr b) ≡ get_root_dir_inode d
unfolding get_root_dir_inode read_super_block
get_root_dir_inode_same d arr b root =
    let super : write_block d arr b (sector_of 0) ≡ d (sector_of 0) =
      write_block_ne d arr b 0 (omega (arith, root.bound)) (omega arith)
        (λ e. root.not_super (sym e)) in
    ap
      (λ (t : Bytes).
        read_inode (write_block d arr b) (decode_super t).rootdir_inode_block_no
          (decode_super t).rootdir_inode_offset)
      super
    ∙ read_inode_elsewhere d arr b _ _ (omega (arith, root.bound)) root.root_bound root.elsewhere

-- A directory's block in use up to its size, after the item of the file at `path` was put in.
module _ (behind : Bytes) (d : Disk) (b : ℕ) (m : Bytes) (path n : ℕ) (i : Inode)
    (root : RootBlock d b) (file : IsRootFile m path n)
    (fits : (get_root_dir_inode d).size + 28 ≤ 512) where
  abbrev size : ℕ
  size = (get_root_dir_inode d).size

  unfoldable pub block : Bytes
  block = put_item (d (sector_of b)) size i (memmov m path behind 0 (n + 1 + 1)) 1 n

  unfoldable pub after : Disk
  unfolding block
  after = write_block d block b

  block_at : (k : ℕ) → k < 512 → after (sector_of b) k ≡ block k
  unfolding after
  block_at k lt = write_block_self d block b k lt

  pub root_after : OneBlock (get_root_dir_inode after) b
  unfolding after
  root_after =
      subst (λ (t : Inode). OneBlock t b) (sym (get_root_dir_inode_same d block b root)) root.one

  old_byte : (k : ℕ) → k < size → after (sector_of b) k ≡ d (sector_of b) k
  unfolding block
  old_byte k lt =
      block_at k (omega (arith, fits))
      ∙ put_item-before (d (sector_of b)) size i (memmov m path behind 0 (n + 1 + 1)) 1 n file.short
          k lt

  pub new_name : NameAt m path n (after (sector_of b)) size
  unfolding block
  new_name j lt =
      ap m (omega arith)
      ∙ sym (memmov-front (n + 1 + 1) m path behind (1 + j) (omega arith))
      ∙ sym (
          put_item-name (d (sector_of b)) size i (memmov m path behind 0 (n + 1 + 1)) 1 n file.short
            j lt)
      ∙ sym (block_at (size + j) (omega (arith, fits, file.short)))

  pub new_place :
      i.my_inode_block_no < 2 ^ 32
      → i.my_inode_offset < 2 ^ 32
      → (read32 (after (sector_of b)) (size + 20) ≡ i.my_inode_block_no)
        × (read32 (after (sector_of b)) (size + 24) ≡ i.my_inode_offset)
  unfolding block
  new_place hb ho =
      let (first, second) =
        put_item-place (d (sector_of b)) size i (memmov m path behind 0 (n + 1 + 1)) 1 n file.short
          hb ho in
      (word_at 20 (omega arith) ∙ first, word_at 24 (omega arith) ∙ second)
    where
      word_at : (o : ℕ) → o ≤ 24 → read32 (after (sector_of b)) (size + o) ≡ read32 block (size + o)
      word_at o le =
          read32_eq _ block (size + o) (block_at _ (omega (arith, fits)))
            (block_at _ (omega (arith, fits))) (block_at _ (omega (arith, fits)))
            (block_at _ (omega (arith, fits)))

  -- The name does not stand before the new item, nor across its start, where a 0 stands.
  pub new_first :
      ((j : ℕ) → j + n < size → ¬ NameAt m path n (d (sector_of b)) j)
      → d (sector_of b) (size - 1) ≡ 0
      → (j : ℕ) → j < size
      → ¬ NameAt m path n (after (sector_of b)) j
  new_first absent gap j lt stands = elim (dec_le (j + n) (size - 1)) [
    | yes inside ↦
        absent j (omega (arith, root.one.some_item))
          (λ k hk. stands k hk ∙ old_byte (j + k) (omega (arith, root.one.some_item)))
    | no across ↦
        let k = size - 1 - j in
        let zero_there : after (sector_of b) (j + k) ≡ 0 =
          ap (after (sector_of b)) (omega arith) ∙ old_byte (size - 1) (omega arith) ∙ gap in
        (file.chars k (omega (arith, across))).1 (stands k (omega (arith, across)) ∙ zero_there)
  ]

  pub write_directory-after :
      write_directory behind d (get_root_dir_inode d) m path i ≡ some (get_root_dir_inode d, after)
  unfolding after
  write_directory-after =
      write_directory-one_block behind d (get_root_dir_inode d) b m path n i file fits root.one.slot

  pub seek_file_inode-after :
      (behind2 : Bytes)
      → ((j : ℕ) → j + n < size → ¬ NameAt m path n (d (sector_of b)) j)
      → d (sector_of b) (size - 1) ≡ 0
      → i.my_inode_block_no < 2 ^ 32
      → i.my_inode_offset < 2 ^ 32
      → i.my_inode_block_no ≢ b
      → seek_file_inode behind2 after m path
        ≡ some (read_inode d i.my_inode_block_no i.my_inode_offset)
  unfolding after
  seek_file_inode-after behind2 absent gap hb ho ne =
      let (block_no, offset) = new_place hb ho in
      seek_file_inode-item behind2 after b size n m path root_after (omega (arith, fits)) file
        new_name (new_first absent gap)
      ∙ ap (λ (t : Inode). some t)
          (ap (λ (c : ℕ). read_inode after c (read32 (after (sector_of b)) (size + 24))) block_no
            ∙ ap (λ (o : ℕ). read_inode after i.my_inode_block_no o) offset
            ∙ read_inode_elsewhere d block b i.my_inode_block_no i.my_inode_offset
                (omega (arith, root.bound)) hb ne)

  -- The files that were there are found as before: their items end before the new one.
  pub seek_file_inode-after_old :
      (path2 n2 k : ℕ)
      → IsRootFile m path2 n2
      → k + 28 ≤ size
      → NameAt m path2 n2 (d (sector_of b)) k
      → ((j : ℕ) → j < k → ¬ NameAt m path2 n2 (d (sector_of b)) j)
      → read32 (d (sector_of b)) (k + 20) < 2 ^ 32
      → read32 (d (sector_of b)) (k + 20) ≢ b
      → seek_file_inode behind after m path2 ≡ seek_file_inode behind d m path2
  unfolding after
  seek_file_inode-after_old path2 n2 k file2 inside here before lt32 ne =
      seek_file_inode-item behind after b k n2 m path2 root_after (omega (arith, fits)) file2
        (λ j lt. here j lt ∙ sym (old_byte (k + j) (omega (arith, inside, file2.short))))
        (λ j lt stands.
          before j lt (λ i hi. stands i hi ∙ old_byte (j + i) (omega (arith, inside, file2.short))))
      ∙ ap (λ (t : Inode). some t)
          (ap (λ (c : ℕ). read_inode after c (read32 (after (sector_of b)) (k + 24)))
              (word 20 (omega arith))
            ∙ ap (λ (o : ℕ). read_inode after (read32 (d (sector_of b)) (k + 20)) o)
                (word 24 (omega arith))
            ∙ read_inode_elsewhere d block b (read32 (d (sector_of b)) (k + 20))
                (read32 (d (sector_of b)) (k + 24)) (omega (arith, root.bound)) lt32 ne)
      ∙ sym (
          seek_file_inode-item behind d b k n2 m path2 root.one (omega (arith, fits)) file2 here
            before)
    where
      word :
          (o : ℕ) → o ≤ 24 → read32 (after (sector_of b)) (k + o) ≡ read32 (d (sector_of b)) (k + o)
      word o le =
          read32_eq _ _ (k + o) (old_byte _ (omega (arith, inside)))
            (old_byte _ (omega (arith, inside))) (old_byte _ (omega (arith, inside)))
            (old_byte _ (omega (arith, inside)))

-- Let the root directory be the block `b`, neither the super block nor the block of its own inode, with
-- 28 bytes free at its end, a 0 as the last byte in use, and the name of the path "/name" (1 to 19
-- characters) nowhere before. After `writeDirectory` for an inode whose place is in the range of a
-- word and outside `b`, `seekFileInode` finds, by this path, the inode at this place.
pub seek_file_inode-write_directory :
    (behind behind2 : Bytes) (d : Disk) (b : ℕ) (m : Bytes) (path n : ℕ) (i : Inode)
    → RootBlock d b
    → IsRootFile m path n
    → (get_root_dir_inode d).size + 28 ≤ 512
    → ((j : ℕ) → j + n < (get_root_dir_inode d).size → ¬ NameAt m path n (d (sector_of b)) j)
    → d (sector_of b) ((get_root_dir_inode d).size - 1) ≡ 0
    → i.my_inode_block_no < 2 ^ 32
    → i.my_inode_offset < 2 ^ 32
    → i.my_inode_block_no ≢ b
    → (d' : Disk) × (write_directory behind d (get_root_dir_inode d) m path i
        ≡ some (get_root_dir_inode d, d'))
      × (seek_file_inode behind2 d' m path
          ≡ some (read_inode d i.my_inode_block_no i.my_inode_offset))
seek_file_inode-write_directory behind behind2 d b m path n i root file fits absent gap hb ho ne = (
  after behind d b m path n i root file fits,
  write_directory-after behind d b m path n i root file fits,
  seek_file_inode-after behind d b m path n i root file fits behind2 absent gap hb ho ne,
)

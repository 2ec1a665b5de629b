-- ===== src/File/Layout.antt =====
-- `struct super_block`, `struct inode` and `struct dir_item` of kernel.h, and the bytes that they
-- are on the disk of a 32-bit little-endian machine.
pub mod Codec
use nbos.Base.{
  ℕ, ◌+◌, ◌*◌, ◌%◌, ◌^◌, ◌<◌, ◌≤◌, ◌≡◌, ◌⊎◌, refl, List, [], ◌∷◌, ◌++◌, arith, length, ap, ◌∙◌,
  get_or, inl, inr,
}
use nbos.Base.Bytes.{
  Bytes, read32, read16, read_words, write_words, AllWords, read32-write_words, read_words_eq,
  write_words-append, read_words-write_words, read32_eq, write_words_out,
}

abbrev pub max_blocks_in_file : ℕ
max_blocks_in_file = 20

abbrev pub inode_size : ℕ
inode_size = 116

pub record Inode : Type 0 where
  pub size : ℕ
  pub atime : ℕ
  pub mtime : ℕ
  pub ctime : ℕ
  pub mode : ℕ
  pub next_inode_block_no : ℕ
  pub next_inode_offset : ℕ
  pub my_inode_block_no : ℕ
  pub my_inode_offset : ℕ
  pub block_no : List ℕ

pub record SuperBlock : Type 0 where
  pub free_inode_block_no : ℕ
  pub free_inode_offset : ℕ
  pub rootdir_inode_block_no : ℕ
  pub rootdir_inode_offset : ℕ
  pub data_block_bit_no : List ℕ

-- The words of an inode. `mode` is a short with two bytes of padding behind it, which are 0 here.
unfoldable pub inode_words : Inode → List ℕ
inode_words i =
    (i.size ∷ i.atime ∷ i.mtime ∷ i.ctime ∷ i.mode ∷ i.next_inode_block_no ∷ i.next_inode_offset
      ∷ i.my_inode_block_no ∷ i.my_inode_offset ∷ [])
    ++ i.block_no

-- `memmov((unsigned char *)iptr, arr + offset, sizeof(struct inode))`
unfoldable pub encode_inode : Inode → Bytes → ℕ → Bytes
unfolding inode_words
encode_inode i arr offset = write_words arr offset (inode_words i)

-- `memmov(arr + offset, (unsigned char *)iptr, sizeof(struct inode))`
unfoldable pub decode_inode : Bytes → ℕ → Inode
decode_inode arr offset = record {
  size = read32 arr offset;
  atime = read32 arr (offset + 4);
  mtime = read32 arr (offset + 8);
  ctime = read32 arr (offset + 12);
  mode = read32 arr (offset + 16) % 65536;
  next_inode_block_no = read32 arr (offset + 20);
  next_inode_offset = read32 arr (offset + 24);
  my_inode_block_no = read32 arr (offset + 28);
  my_inode_offset = read32 arr (offset + 32);
  block_no = read_words arr (offset + 36) max_blocks_in_file;
}

unfoldable pub super_words : SuperBlock → List ℕ
super_words s =
    (s.free_inode_block_no ∷ s.free_inode_offset ∷ s.rootdir_inode_block_no ∷ s.rootdir_inode_offset
      ∷ [])
    ++ s.data_block_bit_no

-- The bytes from the pointer to a super block on: the structure, and what lies behind it.
unfoldable pub encode_super : SuperBlock → Bytes → Bytes
unfolding super_words
encode_super s behind = write_words behind 0 (super_words s)

unfoldable pub decode_super : Bytes → SuperBlock
decode_super arr = record {
  free_inode_block_no = read32 arr 0;
  free_inode_offset = read32 arr 4;
  rootdir_inode_block_no = read32 arr 8;
  rootdir_inode_offset = read32 arr 12;
  data_block_bit_no = read_words arr 16 5;
}

-- The fields fit their C types.
pub record InodeFits (i : Inode) : Type 0 where
  pub size : i.size < 2 ^ 32
  pub atime : i.atime < 2 ^ 32
  pub mtime : i.mtime < 2 ^ 32
  pub ctime : i.ctime < 2 ^ 32
  pub mode : i.mode < 65536
  pub next_block : i.next_inode_block_no < 2 ^ 32
  pub next_offset : i.next_inode_offset < 2 ^ 32
  pub my_block : i.my_inode_block_no < 2 ^ 32
  pub my_offset : i.my_inode_offset < 2 ^ 32
  pub words : AllWords i.block_no
  pub slots : length i.block_no ≡ 20

pub record SuperFits (s : SuperBlock) : Type 0 where
  pub free_block : s.free_inode_block_no < 2 ^ 32
  pub free_offset : s.free_inode_offset < 2 ^ 32
  pub root_block : s.rootdir_inode_block_no < 2 ^ 32
  pub root_offset : s.rootdir_inode_offset < 2 ^ 32
  pub words : AllWords s.data_block_bit_no
  pub slots : length s.data_block_bit_no ≡ 5

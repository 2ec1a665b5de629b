-- ===== src/File/Layout/Codec.antt =====
-- The structures survive the way to bytes and back, and do not disturb their neighbours.
use nbos.File.Layout.{
  Inode, SuperBlock, InodeFits, SuperFits, inode_size, inode_words, encode_inode, decode_inode,
  super_words, encode_super, decode_super,
}
use nbos.Base.{ℕ, ◌+◌, ◌*◌, ◌<◌, ◌≤◌, ◌≡◌, ◌⊎◌, [], ◌∷◌, arith, length, ap, ◌∙◌, get_or}
use nbos.Base.Bytes.{
  Bytes, read32, read_words, AllWords, read32-write_words, read_words_eq, write_words-append,
  read_words-write_words, read32_eq, write_words_out,
}

module _ (i : Inode) (fits : InodeFits i) where
  inode_words-AllWords : AllWords (inode_words i)
  unfolding inode_words
  inode_words-AllWords = (
    fits.size,
    (
      fits.atime,
      (
        fits.mtime,
        (
          fits.ctime,
          (
            omega arith,
            (fits.next_block, (fits.next_offset, (fits.my_block, (fits.my_offset, fits.words)))),
          ),
        ),
      ),
    ),
  )

  field :
      (arr : Bytes) (offset k p : ℕ)
      → k < 9
      → p ≡ offset + 4 * k
      → read32 (encode_inode i arr offset) p ≡ get_or (inode_words i) k 0
  unfolding encode_inode
  field arr offset k p h e =
      read32-write_words arr offset (inode_words i) k p inode_words-AllWords
        (omega (arith, fits.slots)) e

  blocks :
      (arr : Bytes) (offset : ℕ)
      → read_words (encode_inode i arr offset) (offset + 36) 20 ≡ i.block_no
  unfolding encode_inode
  blocks arr offset =
      ap (λ (b : Bytes). read_words b (offset + 36) 20)
        (write_words-append arr offset
          (i.size ∷ i.atime ∷ i.mtime ∷ i.ctime ∷ i.mode ∷ i.next_inode_block_no
            ∷ i.next_inode_offset ∷ i.my_inode_block_no ∷ i.my_inode_offset ∷ [])
          i.block_no)
      ∙ read_words-write_words _ (offset + 36) i.block_no 20 fits.words (omega (arith, fits.slots))

  -- An inode copied into a buffer is what is copied out of it.
  pub decode_inode-encode_inode :
      (arr : Bytes) (offset : ℕ) → decode_inode (encode_inode i arr offset) offset ≡ i
  unfolding decode_inode inode_words
  decode_inode-encode_inode arr offset = ground (
    arith,
    field arr offset 0 offset,
    field arr offset 1 (offset + 4),
    field arr offset 2 (offset + 8),
    field arr offset 3 (offset + 12),
    field arr offset 4 (offset + 16),
    field arr offset 5 (offset + 20),
    field arr offset 6 (offset + 24),
    field arr offset 7 (offset + 28),
    field arr offset 8 (offset + 32),
    blocks arr offset,
  )

-- An inode depends on its 116 bytes alone.
pub decode_inode_eq :
    (b c : Bytes) (p : ℕ)
    → ((i : ℕ) → p ≤ i → i < p + inode_size → b i ≡ c i)
    → decode_inode b p ≡ decode_inode c p
unfolding decode_inode
decode_inode_eq b c p same = ground (
  arith,
  word 0 (omega arith),
  word 4 (omega arith),
  word 8 (omega arith),
  word 12 (omega arith),
  word 16 (omega arith),
  word 20 (omega arith),
  word 24 (omega arith),
  word 28 (omega arith),
  word 32 (omega arith),
  read_words_eq b c (p + 36) 20 (λ i lo hi. same i (omega arith) (omega arith)),
)
  where
    word : (k : ℕ) → k ≤ 112 → read32 b (p + k) ≡ read32 c (p + k)
    word k h =
        read32_eq b c (p + k) (same (p + k) (omega arith) (omega arith))
          (same (p + k + 1) (omega arith) (omega arith))
          (same (p + k + 2) (omega arith) (omega arith))
          (same (p + k + 3) (omega arith) (omega arith))

-- Copying an inode into a buffer leaves the inodes beside it alone.
pub decode_inode-encode_inode_ne :
    (i : Inode) (arr : Bytes) (o p : ℕ)
    → length i.block_no ≡ 20
    → (p + inode_size ≤ o) ⊎ (o + inode_size ≤ p)
    → decode_inode (encode_inode i arr o) p ≡ decode_inode arr p
unfolding encode_inode
decode_inode-encode_inode_ne i arr o p slots apart =
    decode_inode_eq _ arr p
      (λ k lo hi. write_words_out arr o (inode_words i) k (omega (arith, slots)))

module _ (s : SuperBlock) (fits : SuperFits s) (behind : Bytes) where
  super_words-AllWords : AllWords (super_words s)
  unfolding super_words
  super_words-AllWords =
      (fits.free_block, (fits.free_offset, (fits.root_block, (fits.root_offset, fits.words))))

  super_field :
      (k p : ℕ) → k < 4 → p ≡ 4 * k → read32 (encode_super s behind) p ≡ get_or (super_words s) k 0
  unfolding encode_super
  super_field k p h e =
      read32-write_words behind 0 (super_words s) k p super_words-AllWords
        (omega (arith, fits.slots)) (omega arith)

  super_blocks : read_words (encode_super s behind) 16 5 ≡ s.data_block_bit_no
  unfolding encode_super
  super_blocks =
      ap (λ (b : Bytes). read_words b 16 5)
        (write_words-append behind 0
          (s.free_inode_block_no ∷ s.free_inode_offset ∷ s.rootdir_inode_block_no
            ∷ s.rootdir_inode_offset ∷ [])
          s.data_block_bit_no)
      ∙ read_words-write_words _ 16 s.data_block_bit_no 5 fits.words (omega (arith, fits.slots))

  -- A super block written to its sector is what is read from it.
  pub decode_super-encode_super : decode_super (encode_super s behind) ≡ s
  unfolding decode_super super_words
  decode_super-encode_super =
      ground
        (arith, super_field 0 0, super_field 1 4, super_field 2 8, super_field 3 12, super_blocks)

-- A super block depends on its 36 bytes alone.
pub decode_super_eq :
    (b c : Bytes) → ((i : ℕ) → i < 36 → b i ≡ c i) → decode_super b ≡ decode_super c
unfolding decode_super
decode_super_eq b c same = ground (
  arith,
  word 0 (omega arith),
  word 4 (omega arith),
  word 8 (omega arith),
  word 12 (omega arith),
  read_words_eq b c 16 5 (λ i lo hi. same i (omega arith)),
)
  where
    word : (k : ℕ) → k ≤ 32 → read32 b k ≡ read32 c k
    word k h =
        read32_eq b c k (same k (omega arith)) (same (k + 1) (omega arith))
          (same (k + 2) (omega arith)) (same (k + 3) (omega arith))

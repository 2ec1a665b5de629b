-- ===== src/File/Inodes/Init.antt =====
-- What `init_superBlock` and `init_inodeList` leave on the disk: every inode, in order, free.
use nbos.Base.{
  ℕ, zero, suc, ◌+◌, ◌^◌, ◌≤◌, ◌<◌, ◌≡◌, ◌≢◌, refl, arith, none, List, [], ◌∷◌, ap, ◌∙◌, sym, ne→==,
}
use mathlib.Core.Path.{subst, subst₂}
use native.Mathlib.Decide.{ℕ_discrete}
use nbos.Base.Bytes.{Bytes, IsBytes, read32_eq, read32, write32}
use nbos.File.Disk.{Disk, k_readsector, sector_of, write_block, write_block_ne, write_block_self}
use nbos.File.Layout.{SuperBlock, SuperFits, inode_size, decode_inode, decode_super}
use nbos.File.Inodes.{
  read_super_block, read_inode, fill_inode, fill_block, init_inode_blocks, init_inode_list,
  init_super_block, alloc_inode,
}
use nbos.File.Inodes.RoundTrip.{read_super_block-write_super_block}
use nbos.File.Inodes.Chain.{Place, Chain, FreeInodes, free_of, alloc_inodes, alloc_inodes_drain}

-- The four places of a block, and of the `n` blocks from `i` on.
abbrev pub block_places : ℕ → List Place → List Place
block_places i rest = (i, 0) ∷ (i, 116) ∷ (i, 232) ∷ (i, 348) ∷ rest

abbrev pub places : ℕ → ℕ → List Place
places zero i = []
places (suc n) i = block_places i (places n (i + 1))

link :
    (d : Disk) (b o nb nxt : ℕ) (xs : List Place)
    → b ≢ 0
    → b < 2 ^ 31
    → o + inode_size ≤ 512
    → (read_inode d b o).next_inode_block_no ≡ nb
    → (read_inode d b o).next_inode_offset ≡ nxt
    → Chain d nb nxt xs
    → Chain d b o ((b, o) ∷ xs)
link d b o nb nxt xs nz small room eb eo c =
    (refl, nz, small, room, subst₂ (λ b' o'. Chain d b' o' xs) (sym eb) (sym eo) c)

-- The `next` fields of a filled block that is not the last.
fill_block_next :
    (i : ℕ) (arr : Bytes)
    → i < 50
    → 0 < i
    → (read32 (fill_block i arr) 20 ≡ i)
      × (read32 (fill_block i arr) 24 ≡ 116)
      × (read32 (fill_block i arr) 136 ≡ i)
      × (read32 (fill_block i arr) 140 ≡ 232)
      × (read32 (fill_block i arr) 252 ≡ i)
      × (read32 (fill_block i arr) 256 ≡ 348)
      × (read32 (fill_block i arr) 368 ≡ i + 1)
      × (read32 (fill_block i arr) 372 ≡ 0)
unfolding fill_block fill_inode read32 write32
fill_block_next i arr h p = rw (ne→== i 50 (omega arith)) (omega arith)

fill_block_last :
    (arr : Bytes)
    → (read32 (fill_block 50 arr) 20 ≡ 50)
      × (read32 (fill_block 50 arr) 24 ≡ 116)
      × (read32 (fill_block 50 arr) 136 ≡ 50)
      × (read32 (fill_block 50 arr) 140 ≡ 232)
      × (read32 (fill_block 50 arr) 252 ≡ 50)
      × (read32 (fill_block 50 arr) 256 ≡ 348)
      × (read32 (fill_block 50 arr) 368 ≡ 0)
      × (read32 (fill_block 50 arr) 372 ≡ 0)
unfolding fill_block fill_inode read32 write32
fill_block_last arr = omega arith

init_inode_blocks_out :
    (behind : Bytes) (n i : ℕ) (d : Disk) (b : ℕ)
    → i + n ≤ 51
    → b < i
    → init_inode_blocks behind n i d (sector_of b) ≡ d (sector_of b)
unfolding init_inode_blocks
init_inode_blocks_out behind zero i d b h lt = refl
init_inode_blocks_out behind (suc n) i d b h lt =
    init_inode_blocks_out behind n (i + 1) (write_block d (fill_block i behind) i) b (omega arith)
      (omega arith)
    ∙ write_block_ne d _ i b (omega arith) (omega arith) (omega arith)

init_inode_blocks_in :
    (behind : Bytes) (n i : ℕ) (d : Disk) (b k : ℕ)
    → i + n ≤ 51
    → i ≤ b
    → b < i + n
    → k < 512
    → init_inode_blocks behind n i d (sector_of b) k ≡ fill_block b behind k
unfolding init_inode_blocks
init_inode_blocks_in behind zero i d b k h lo hi s = absurd (omega arith)
init_inode_blocks_in behind (suc n) i d b k h lo hi s = elim (ℕ_discrete b i) [
  | yes e ↦ rw e (
      ap (λ (t : Bytes). t k)
        (init_inode_blocks_out behind n (i + 1) (write_block d (fill_block i behind) i) i
          (omega arith) (omega arith))
      ∙ write_block_self d (fill_block i behind) i k s)
  | no ne ↦
      init_inode_blocks_in behind n (i + 1) (write_block d (fill_block i behind) i) b k
        (omega arith) (omega arith) (omega arith) s
]

module _ (behind : Bytes) (d : Disk)
    (filled : (b k : ℕ)
      → 0 < b
      → b ≤ 50
      → k < 512
      → d (sector_of b) k ≡ fill_block b behind k) where
  word :
      (b k : ℕ)
      → 0 < b
      → b ≤ 50
      → k ≤ 508
      → read32 (d (sector_of b)) k ≡ read32 (fill_block b behind) k
  word b k lo hi s =
      read32_eq (d (sector_of b)) (fill_block b behind) k (filled b k lo hi (omega arith))
        (filled b (k + 1) lo hi (omega arith)) (filled b (k + 2) lo hi (omega arith))
        (filled b (k + 3) lo hi (omega arith))

  next :
      (b o : ℕ)
      → 0 < b
      → b ≤ 50
      → o ≤ 348
      → ((read_inode d b o).next_inode_block_no ≡ read32 (fill_block b behind) (o + 20))
        × ((read_inode d b o).next_inode_offset ≡ read32 (fill_block b behind) (o + 24))
  unfolding read_inode decode_inode k_readsector
  next b o lo hi s = (word b (o + 20) lo hi (omega arith), word b (o + 24) lo hi (omega arith))

  -- The four links of a block, given where its last inode leads.
  Chain-block :
      (b nb : ℕ) (xs : List Place)
      → 0 < b
      → b ≤ 50
      → (read32 (fill_block b behind) 20 ≡ b)
        × (read32 (fill_block b behind) 24 ≡ 116)
        × (read32 (fill_block b behind) 136 ≡ b)
        × (read32 (fill_block b behind) 140 ≡ 232)
        × (read32 (fill_block b behind) 252 ≡ b)
        × (read32 (fill_block b behind) 256 ≡ 348)
        × (read32 (fill_block b behind) 368 ≡ nb)
        × (read32 (fill_block b behind) 372 ≡ 0)
      → Chain d nb 0 xs
      → Chain d b 0 (block_places b xs)
  Chain-block b nb xs lo hi f c =
      let n0 = next b 0 lo hi (omega arith) in
      let n1 = next b 116 lo hi (omega arith) in
      let n2 = next b 232 lo hi (omega arith) in
      let n3 = next b 348 lo hi (omega arith) in
      link d b 0 b 116 ((b, 116) ∷ (b, 232) ∷ (b, 348) ∷ xs) (omega arith) (omega arith)
        (omega arith) (n0.0 ∙ f.0) (n0.1 ∙ f.1)
        (link d b 116 b 232 ((b, 232) ∷ (b, 348) ∷ xs) (omega arith) (omega arith) (omega arith)
          (n1.0 ∙ f.2) (n1.1 ∙ f.3)
          (link d b 232 b 348 ((b, 348) ∷ xs) (omega arith) (omega arith) (omega arith) (n2.0 ∙ f.4)
            (n2.1 ∙ f.5)
            (link d b 348 nb 0 xs (omega arith) (omega arith) (omega arith) (n3.0 ∙ f.6)
              (n3.1 ∙ f.7) c)))

  Chain-places : (n i : ℕ) → 0 < i → i + n ≡ 50 → Chain d i 0 (places (suc n) i)
  Chain-places zero i lo e =
      let e' : i ≡ 50 = omega arith in
      subst (λ b. Chain d b 0 (places 1 b)) (sym e')
        (Chain-block 50 0 [] (omega arith) (omega arith) (fill_block_last behind)
          (refl, omega arith))
  Chain-places (suc n) i lo e =
      Chain-block i (i + 1) (places (suc n) (i + 1)) lo (omega arith)
        (fill_block_next i behind (omega arith) lo)
        (Chain-places n (i + 1) (omega arith) (omega arith))

abbrev pub formatted : Bytes → Bytes → Disk → Disk
formatted behind buffer d = init_inode_list buffer (init_super_block behind d)

abbrev fresh_super : Bytes → SuperBlock
fresh_super behind = record {
  free_inode_block_no = 1;
  free_inode_offset = 0;
  rootdir_inode_block_no = read32 behind 8;
  rootdir_inode_offset = read32 behind 12;
  data_block_bit_no = 51 ∷ 52 ∷ 53 ∷ 54 ∷ 55 ∷ [];
}

fresh_super-fits : (behind : Bytes) → IsBytes behind → SuperFits (fresh_super behind)
unfolding read32
fresh_super-fits behind bytes = record {
  free_block = omega arith;
  free_offset = omega arith;
  root_block = omega (arith, bytes 8, bytes 9, bytes 10, bytes 11);
  root_offset = omega (arith, bytes 12, bytes 13, bytes 14, bytes 15);
  words = omega arith;
  slots = refl;
}

formatted_super :
    (behind buffer : Bytes) (d : Disk)
    → IsBytes behind
    → read_super_block (formatted behind buffer d) ≡ fresh_super behind
unfolding init_inode_list init_super_block read_super_block k_readsector
formatted_super behind buffer d bytes =
    ap decode_super
      (init_inode_blocks_out buffer 50 1 (init_super_block behind d) 0 (omega arith) (omega arith))
    ∙ read_super_block-write_super_block behind d (fresh_super behind)
        (fresh_super-fits behind bytes)

formatted_block :
    (behind buffer : Bytes) (d : Disk) (b k : ℕ)
    → 0 < b
    → b ≤ 50
    → k < 512
    → formatted behind buffer d (sector_of b) k ≡ fill_block b buffer k
unfolding init_inode_list
formatted_block behind buffer d b k lo hi s =
    init_inode_blocks_in buffer 50 1 (init_super_block behind d) b k (omega arith) (omega arith)
      (omega arith) s

-- After `init_superBlock` and `init_inodeList` the 200 inodes of the 50 inode blocks are free, in
-- the order of their places, whatever the disk and the buffers held before.
pub init-FreeInodes :
    (behind buffer : Bytes) (d : Disk)
    → IsBytes behind
    → FreeInodes (formatted behind buffer d) (places 50 1)
init-FreeInodes behind buffer d bytes =
    free_of (formatted behind buffer d) (fresh_super behind) (places 50 1)
      (formatted_super behind buffer d bytes) (fresh_super-fits behind bytes)
      (Chain-places buffer (formatted behind buffer d) (formatted_block behind buffer d) 49 1
        (omega arith) (omega arith))

-- On a disk that `init_superBlock` and `init_inodeList` prepared, whatever it and the buffers held
-- before, where what lies behind the super block's structure in memory are bytes, 200 calls of
-- `allocInode` hand out the 200 inodes of the 50 inode blocks, each once, in the order of their
-- places, and the next call fails.
pub alloc_inodes-formatted :
    (behind buffer : Bytes) (d : Disk)
    → IsBytes behind
    → ((alloc_inodes behind 200 (formatted behind buffer d)).0 ≡ places 50 1)
      × (alloc_inode behind (alloc_inodes behind 200 (formatted behind buffer d)).1 ≡ none)
alloc_inodes-formatted behind buffer d bytes =
    alloc_inodes_drain behind (formatted behind buffer d) (places 50 1) 200
      (init-FreeInodes behind buffer d bytes) (omega arith)

-- ===== src/File/Inodes/Chain.antt =====
-- The list of free inodes that the super block heads, as a sequence of places on the disk.
use nbos.Base.{
  ℕ, zero, suc, ◌+◌, ◌^◌, ◌≤◌, ◌<◌, ◌≡◌, ◌≢◌, refl, arith, length, none, some, List, [], ◌∷◌,
  replicate, ap, sym, ne→==,
}
use mathlib.Core.Path.{subst}
use nbos.Base.Bytes.{Bytes}
use nbos.File.Disk.{Disk, write_block_ne}
use nbos.File.Layout.{Inode, SuperBlock, SuperFits, inode_size, decode_inode}
use nbos.File.Inodes.{read_super_block, write_super_block, read_inode, alloc_inode}
use nbos.File.Inodes.RoundTrip.{read_super_block-write_super_block}

-- A block's number and an offset in it.
abbrev pub Place : Type 0
Place = ℕ × ℕ

-- From the place `(b, o)` the `next` fields lead through the places `xs` to the block number 0.
abbrev pub Chain : Disk → ℕ → ℕ → List Place → Type 0
Chain d b o [] = (b ≡ 0) × (o < 2 ^ 32)
Chain d b o (x ∷ xs) =
    (x ≡ (b, o))
    × (b ≢ 0)
    × (b < 2 ^ 31)
    × (o + inode_size ≤ 512)
    × Chain d (read_inode d b o).next_inode_block_no (read_inode d b o).next_inode_offset xs

-- The free inodes of a disk, in the order in which they will be handed out.
pub record FreeInodes (d : Disk) (xs : List Place) : Type 0 where
  pub fits : SuperFits (read_super_block d)
  pub chain :
      Chain d (read_super_block d).free_inode_block_no (read_super_block d).free_inode_offset xs

pub free_of :
    (d : Disk) (sb : SuperBlock) (xs : List Place)
    → read_super_block d ≡ sb
    → SuperFits sb
    → Chain d sb.free_inode_block_no sb.free_inode_offset xs
    → FreeInodes d xs
free_of d sb xs e fits c = record {
  fits = subst SuperFits (sym e) fits;
  chain =
      subst (λ (t : SuperBlock). Chain d t.free_inode_block_no t.free_inode_offset xs) (sym e) c;
}

-- A write to block 0 leaves the inodes alone.
pub read_inode-write_super_block :
    (behind : Bytes) (d : Disk) (s : SuperBlock) (b o : ℕ)
    → b ≢ 0
    → b < 2 ^ 31
    → read_inode (write_super_block behind d s) b o ≡ read_inode d b o
unfolding read_inode write_super_block
read_inode-write_super_block behind d s b o nz small =
    ap (λ (t : Bytes). decode_inode t o) (write_block_ne d _ 0 b (omega arith) (omega arith) nz)

-- A chain depends on the inodes that it goes through.
pub Chain-preserved :
    (d d' : Disk) (xs : List Place) (b o : ℕ)
    → ((c p : ℕ) → c ≢ 0 → c < 2 ^ 31 → read_inode d' c p ≡ read_inode d c p)
    → Chain d b o xs
    → Chain d' b o xs
Chain-preserved d d' [] b o same c = c
Chain-preserved d d' (x ∷ xs) b o same (e, nz, small, room, c) =
    let i = read_inode d b o in
    let i' = read_inode d' b o in
    let p : i' ≡ i = same b o nz small in
    (
      e,
      nz,
      small,
      room,
      rw p (Chain-preserved d d' xs i.next_inode_block_no i.next_inode_offset same c),
    )

Chain-head-fits :
    (d : Disk) (xs : List Place) {b o : ℕ} → Chain d b o xs → (b < 2 ^ 32) × (o < 2 ^ 32)
Chain-head-fits d [] (e, h) = (omega arith, h)
Chain-head-fits d (x ∷ xs) (e, nz, small, room, c) = (omega arith, omega arith)

-- What `allocInode` does to a disk whose free inodes are `x ∷ xs`.
pub record Allocated (d : Disk) (x : Place) (xs : List Place) (i : Inode) (d' : Disk) : Type 0 where
  pub own_block : i.my_inode_block_no ≡ x.0
  pub own_offset : i.my_inode_offset ≡ x.1
  pub no_blocks : i.block_no ≡ replicate 20 0
  pub left : FreeInodes d' xs
  pub root_block :
      (read_super_block d').rootdir_inode_block_no ≡ (read_super_block d).rootdir_inode_block_no
  pub root_offset :
      (read_super_block d').rootdir_inode_offset ≡ (read_super_block d).rootdir_inode_offset
  pub bitmap : (read_super_block d').data_block_bit_no ≡ (read_super_block d).data_block_bit_no

-- With a free inode at the head, `allocInode` hands out that one with no blocks in it, and leaves
-- the rest of the free inodes, the root directory and the bitmap as they were.
pub alloc_inode_cons :
    (behind : Bytes) (d : Disk) (x : Place) (xs : List Place)
    → FreeInodes d (x ∷ xs)
    → (i : Inode) × (d' : Disk) × (alloc_inode behind d ≡ some (i, d')) × Allocated d x xs i d'
unfolding alloc_inode
alloc_inode_cons behind d x xs free = (
  taken,
  d',
  rw (ne→== _ _ free.chain.1),
  record {
    own_block = ap (λ (q : Place). q.0) (sym free.chain.0);
    own_offset = ap (λ (q : Place). q.1) (sym free.chain.0);
    no_blocks = refl;
    left = free_of d' sb' xs back fits kept;
    root_block = ap (λ (s : SuperBlock). s.rootdir_inode_block_no) back;
    root_offset = ap (λ (s : SuperBlock). s.rootdir_inode_offset) back;
    bitmap = ap (λ (s : SuperBlock). s.data_block_bit_no) back;
  },
)
  where
    sb : SuperBlock
    sb = read_super_block d

    i : Inode
    i = read_inode d sb.free_inode_block_no sb.free_inode_offset

    taken : Inode
    taken = record i {
      my_inode_block_no = sb.free_inode_block_no;
      my_inode_offset = sb.free_inode_offset;
      block_no = replicate 20 0;
    }

    sb' : SuperBlock
    sb' = record sb {
      free_inode_offset = i.next_inode_offset;
      free_inode_block_no = i.next_inode_block_no;
    }

    d' : Disk
    d' = write_super_block behind d sb'

    rest : Chain d sb'.free_inode_block_no sb'.free_inode_offset xs
    rest = free.chain.4

    fits : SuperFits sb'
    fits = record {
      free_block = (Chain-head-fits d xs rest).0;
      free_offset = (Chain-head-fits d xs rest).1;
      root_block = free.fits.root_block;
      root_offset = free.fits.root_offset;
      words = free.fits.words;
      slots = free.fits.slots;
    }

    back : read_super_block d' ≡ sb'
    back = read_super_block-write_super_block behind d sb' fits

    kept : Chain d' sb'.free_inode_block_no sb'.free_inode_offset xs
    kept =
        Chain-preserved d d' xs sb'.free_inode_block_no sb'.free_inode_offset
          (λ c p nz small. read_inode-write_super_block behind d sb' c p nz small) rest

-- With no free inode `allocInode` fails.
pub alloc_inode_nil : (behind : Bytes) (d : Disk) → FreeInodes d [] → alloc_inode behind d ≡ none
unfolding alloc_inode
alloc_inode_nil behind d free = rw free.chain.0

-- `allocInode` called `n` times, as long as it succeeds: the places of the inodes, and the disk.
abbrev pub alloc_inodes : Bytes → ℕ → Disk → List Place × Disk
alloc_inodes behind zero d = ([], d)
alloc_inodes behind (suc n) d = elim (alloc_inode behind d) [
  | none ↦ ([], d)
  | some (i, d') ↦
      let (places, last) = alloc_inodes behind n d' in
      ((i.my_inode_block_no, i.my_inode_offset) ∷ places, last)
]

-- Calls enough hand out the free inodes in their order, each once, and then `allocInode` fails.
pub alloc_inodes_drain :
    (behind : Bytes) (d : Disk) (xs : List Place) (n : ℕ)
    → FreeInodes d xs
    → length xs ≤ n
    → ((alloc_inodes behind n d).0 ≡ xs) × (alloc_inode behind (alloc_inodes behind n d).1 ≡ none)
alloc_inodes_drain behind d [] zero free le = (refl, alloc_inode_nil behind d free)
alloc_inodes_drain behind d [] (suc n) free le =
    rw (alloc_inode_nil behind d free, alloc_inodes) (refl, alloc_inode_nil behind d free)
alloc_inodes_drain behind d (x ∷ xs) zero free le = absurd (omega arith)
alloc_inodes_drain behind d (x ∷ xs) (suc n) free le =
    let (i, d', e, a) = alloc_inode_cons behind d x xs free in
    let ih = alloc_inodes_drain behind d' xs n a.left (omega arith) in
    rw (e, alloc_inodes) (ground (arith, ih.0, a.own_block, a.own_offset), ih.1)

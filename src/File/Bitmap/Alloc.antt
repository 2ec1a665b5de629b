-- ===== src/File/Bitmap/Alloc.antt =====
-- `allocBlock` hands out a free block, cleared and marked busy.
use mathlib.Core.Path.{subst}
use native.Mathlib.Decide.{dec_le}
use nbos.Base.{
  ℕ, ◌^◌, ◌≤◌, ◌<◌, ◌≡◌, ◌≢◌, arith, true, false, ◌||◌, ◌==◌, ne→==, none, some, [], ◌∷◌, ap, sym,
  ◌∙◌, set,
}
use nbos.Base.Bytes.{Bytes, IsBytes}
use nbos.File.Disk.{
  Disk, k_readsector, sector_of, write_block_ne, clear_block, clear_block_self, clear_block_ne,
}
use nbos.File.Layout.{Inode}
use nbos.File.Inodes.{read_super_block}
use nbos.File.Bitmap.{
  alloc_block, find_free_block, free_slot, get_free_block, update_data_block_bit, updated,
  minus_one, block_busy,
}
use nbos.File.Bitmap.Scan.{busy, get_free_block-free}
use nbos.File.Bitmap.Update.{bitmap, updated-free_to_busy}

-- A disk whose bitmap is in place: the super block lists its blocks, and the super block, the
-- inodes and the bitmap itself are marked busy.
pub record Bitmapped (d : Disk) : Type 0 where
  pub super : (read_super_block d).data_block_bit_no ≡ 51 ∷ 52 ∷ 53 ∷ 54 ∷ 55 ∷ []
  pub bytes : IsBytes (bitmap d)
  pub reserved : (m : ℕ) → m < 56 → busy (bitmap d) m ≡ true

-- The block that `allocBlock` takes.
abbrev pub next_block : Disk → ℕ
next_block d = get_free_block (bitmap d) 512

module _ (d : Disk) (bits : Bitmapped d) (small : next_block d ≤ 700) where
  next_block-free : busy (bitmap d) (next_block d) ≡ false
  next_block-free = get_free_block-free (bitmap d) 512 bits.bytes (omega arith)

  next_block-ge : 56 ≤ next_block d
  next_block-ge = elim (dec_le 56 (next_block d)) [
    | yes h ↦ h
    | no h ↦ cc (bits.reserved (next_block d) (omega arith), next_block-free)
  ]

  found : find_free_block d (read_super_block d).data_block_bit_no 0 0 ≡ next_block d
  unfolding find_free_block k_readsector
  found = rw (bits.super, ne→== (next_block d) minus_one (omega arith)) (omega arith)

  cleared_bitmap : bitmap (clear_block d (next_block d)) ≡ bitmap d
  unfolding clear_block
  cleared_bitmap =
      write_block_ne d _ (next_block d) 51 (omega arith) (omega arith)
        (omega (arith, next_block-ge))

-- With a slot `a` of the inode unused and a free block among the first 700, `allocBlock` puts the
-- number of the first free block into the slot. That block was free and lies behind the bitmap;
-- afterwards it is busy and zeroed, and every other bit `m` of the bitmap and the content of every
-- other block `c` outside the bitmap is as before.
pub alloc_block_lem :
    (d : Disk) (i : Inode) (a m c k : ℕ)
    → Bitmapped d
    → next_block d ≤ 700
    → free_slot 0 i.block_no ≡ some a
    → m < 4096
    → c < 2 ^ 32
    → c ≢ 51
    → c ≢ next_block d
    → k < 512
    → (d' : Disk) × (alloc_block d i
        ≡ some (record i { block_no = set i.block_no a (next_block d) }, d'))
      × (56 ≤ next_block d)
      × (busy (bitmap d) (next_block d) ≡ false)
      × (busy (bitmap d') m ≡ ((m == next_block d) || busy (bitmap d) m))
      × (d' (sector_of (next_block d)) k ≡ 0)
      × (d' (sector_of c) ≡ d (sector_of c))
unfolding alloc_block
alloc_block_lem d i a m c k bits small slot hm hc ne51 ne hk = (
  marked_disk,
  rw (slot, alloc_block, found d bits small, ne→== (next_block d) minus_one (omega arith)),
  low,
  next_block-free d bits small,
  (mark c hc ne51).0 ∙ ap (λ (b : Bytes). (m == next_block d) || busy b m) same,
  ap (λ (b : Bytes). b k) (mark (next_block d) (omega arith) (omega (arith, low))).1
      ∙ clear_block_self d (next_block d) k hk,
  (mark c hc ne51).1 ∙ clear_block_ne d (next_block d) c (omega arith) hc ne,
)
  where
    cleared : Disk
    cleared = clear_block d (next_block d)

    marked_disk : Disk
    marked_disk = updated cleared (update_data_block_bit cleared (next_block d) block_busy)

    low : 56 ≤ next_block d
    low = next_block-ge d bits small

    same : bitmap cleared ≡ bitmap d
    same = cleared_bitmap d bits small

    mark :
        (b : ℕ)
        → b < 2 ^ 32
        → b ≢ 51
        → (busy (bitmap marked_disk) m ≡ ((m == next_block d) || busy (bitmap cleared) m))
          × (marked_disk (sector_of b) ≡ cleared (sector_of b))
    mark b hb neb =
        updated-free_to_busy cleared (next_block d) m b small (subst IsBytes (sym same) bits.bytes)
          (subst (λ (t : Bytes). busy t (next_block d) ≡ false) (sym same)
            (next_block-free d bits small))
          hm hb neb

-- Where every slot of the inode is used, `allocBlock` fails.
pub alloc_block_no_slot :
    (d : Disk) (i : Inode) → free_slot 0 i.block_no ≡ none → alloc_block d i ≡ none
unfolding alloc_block
alloc_block_no_slot d i full = rw (full, alloc_block)

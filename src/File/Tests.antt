-- ===== src/File/Tests.antt =====
-- The file system's theorems at concrete disks and inodes.
use native.Mathlib.Omega.{arith}
use mathlib.Core.Path.{◌≡◌, refl}
use nbos.Base.{
  ℕ, zero, suc, ◌+◌, ◌-◌, ◌%◌, ◌^◌, ◌≤◌, ◌<◌, ◌≢◌, ◌⊎◌, inl, inr, true, false, ◌&&◌, ◌||◌, none,
  some, [], ◌∷◌, ◌==◌, ltb, leb, if◌then◌else◌, get_elem?, set, replicate,
}
use nbos.Base.Bits.{all_below, all_below_sound}
use nbos.Base.Bytes.{Bytes, IsBytes}
use nbos.Base.Bytes.{AllWords, read_words, read32, write_words, write32}
use nbos.File.Disk.{Disk, write_block, sector_of}
use nbos.File.Layout.{decode_super, encode_super, Inode, InodeFits, SuperBlock}
use nbos.File.Inodes.{read_inode, write_inode, read_super_block, write_super_block, alloc_inode}
use nbos.File.Inodes.Chain.{alloc_inodes, Place}
use nbos.File.Inodes.Init.{places, formatted, alloc_inodes-formatted}
use nbos.File.Inodes.RoundTrip.{read_inode-write_inode}
use nbos.File.Bitmap.{
  get_free_block, update_data_block_bit, alloc_block, free_slot, block_busy, bit_set, free_byte,
  free_bit,
}
use nbos.File.Bitmap.Scan.{busy}
use nbos.File.Bitmap.Update.{bitmap, update-busy_clears_byte}
use nbos.File.Bitmap.Alloc.{Bitmapped, next_block, alloc_block_lem}
use nbos.File.Disk.{super_block_sector}
use nbos.File.Content.{OpenFile, write_file, read_file_at_offset, got}
use nbos.File.Content.Refine.{Mapped, block_at, content, write_file-content, read_file-write_file}
use nbos.File.Content.Unallocated.{write_file-hits_super_block}

abbrev zeros : Bytes
zeros k = 0

abbrev blank_disk : Disk
blank_disk s k = 0

abbrev sevens : Bytes
sevens k = 7

abbrev empty_file : Inode
empty_file = record {
  size = 0;
  atime = 0;
  mtime = 0;
  ctime = 0;
  mode = 0;
  next_inode_block_no = 0;
  next_inode_offset = 0;
  my_inode_block_no = 1;
  my_inode_offset = 116;
  block_no = replicate 20 0;
}

abbrev two_blocks : Inode
two_blocks = record empty_file { size = 1024; block_no = 60 ∷ 61 ∷ replicate 18 0 }

abbrev open_file : OpenFile
open_file = record {
  oflags = 2;
  offset = 500;
  f_inode_block_no = 1;
  f_inode_offset = 116;
  isopen = 1;
}

here : (j : ℕ) → j < 2 → get_elem? two_blocks.block_no j ≡ some (block_at two_blocks j)
here zero lt = refl
here (suc zero) lt = refl
here (suc (suc j)) lt = absurd (omega arith)

nonzero : (j : ℕ) → j < 2 → block_at two_blocks j ≢ 0
nonzero zero lt = λ e. absurd (omega arith)
nonzero (suc zero) lt = λ e. absurd (omega arith)
nonzero (suc (suc j)) lt = absurd (omega arith)

bound : (j : ℕ) → j < 2 → block_at two_blocks j < 2 ^ 31
bound zero lt = omega arith
bound (suc zero) lt = omega arith
bound (suc (suc j)) lt = absurd (omega arith)

apart : (j k : ℕ) → j < 2 → k < 2 → j ≢ k → block_at two_blocks j ≢ block_at two_blocks k
apart zero zero lt lt' ne = absurd (ne refl)
apart zero (suc zero) lt lt' ne = λ e. absurd (omega arith)
apart (suc zero) zero lt lt' ne = λ e. absurd (omega arith)
apart (suc zero) (suc zero) lt lt' ne = absurd (ne refl)
apart zero (suc (suc k)) lt lt' ne = absurd (omega arith)
apart (suc zero) (suc (suc k)) lt lt' ne = absurd (omega arith)
apart (suc (suc j)) k lt lt' ne = absurd (omega arith)

two_blocks-Mapped : Mapped two_blocks 2
two_blocks-Mapped = record {
  small = omega arith;
  here = here;
  nonzero = nonzero;
  bound = bound;
  apart = apart;
}

zero_words : (n : ℕ) → AllWords (replicate n 0)
zero_words zero = tt
zero_words (suc n) = (omega arith, zero_words n)

two_blocks-InodeFits : InodeFits two_blocks
two_blocks-InodeFits = record {
  size = omega arith;
  atime = omega arith;
  mtime = omega arith;
  ctime = omega arith;
  mode = omega arith;
  next_block = omega arith;
  next_offset = omega arith;
  my_block = omega arith;
  my_offset = omega arith;
  words = (omega arith, (omega arith, zero_words 18));
  slots = refl;
}

zeros-IsBytes : IsBytes zeros
zeros-IsBytes i = omega arith

-- A bitmap whose first 56 blocks are busy, and a disk with it.
abbrev bits : Bytes
bits k = if ltb k 7 then 255 else 0

abbrev first_super : SuperBlock
first_super = record {
  free_inode_block_no = 1;
  free_inode_offset = 0;
  rootdir_inode_block_no = 0;
  rootdir_inode_offset = 0;
  data_block_bit_no = 51 ∷ 52 ∷ 53 ∷ 54 ∷ 55 ∷ [];
}

abbrev disk : Disk
disk = write_super_block zeros (λ s. bits) first_super

bits-IsBytes : IsBytes (bitmap disk)
unfolding write_super_block write_block
bits-IsBytes i = ground arith

reserved : (m : ℕ) → m < 56 → busy (bitmap disk) m ≡ true
unfolding write_super_block bit_set all_below write_block
reserved m lt = all_below_sound 56 (busy (bitmap disk)) m refl lt

disk-Bitmapped : Bitmapped disk
unfolding write_super_block read_super_block decode_super read_words read32 write_block encode_super
    write_words write32
disk-Bitmapped = record { super = refl; bytes = bits-IsBytes; reserved = reserved }

disk-next_block : next_block disk ≡ 56
unfolding get_free_block write_super_block free_byte free_bit bit_set write_block
disk-next_block = refl

bits-next : get_free_block bits 512 ≡ 56
unfolding get_free_block free_byte free_bit bit_set
bits-next = refl

free_block : (n : ℕ) → (n ≡ 56) ⊎ (n ≡ 60) → busy (bitmap disk) n ≡ false
unfolding write_super_block bit_set write_block
free_block n (inl e) = rw e
free_block n (inr e) = rw e

write_file-content_example :
    (d' : Disk) × (write_file blank_disk open_file two_blocks sevens 100
      ≡ some (two_blocks, record open_file { offset = open_file.offset + 100 }, d'))
    × (content d' two_blocks 550 ≡ (
        if leb open_file.offset 550 && ltb 550 (open_file.offset + 100)
        then sevens (550 - open_file.offset)
        else content blank_disk two_blocks 550))
write_file-content_example =
    write_file-content blank_disk open_file two_blocks sevens 100 2 550 two_blocks-Mapped
      (omega arith) (omega arith)

read_file-write_file_example :
    (d' : Disk) × (out : Bytes) × (write_file blank_disk open_file two_blocks sevens 100
      ≡ some (two_blocks, record open_file { offset = open_file.offset + 100 }, d'))
    × (read_file_at_offset d' two_blocks open_file.offset zeros 100 ≡ got 100 out)
    × (out 3 ≡ sevens 3)
read_file-write_file_example =
    read_file-write_file blank_disk open_file two_blocks sevens zeros 100 2 3 two_blocks-Mapped
      (omega arith) (omega arith) (omega arith)

write_file-hits_super_block_example :
    (i' : Inode) × (d' : Disk) × (write_file blank_disk open_file empty_file sevens 10
      ≡ some (i', record open_file { offset = open_file.offset + 10 }, d'))
    × (d' super_block_sector (open_file.offset % 512 + 3) ≡ sevens 3)
write_file-hits_super_block_example =
    write_file-hits_super_block blank_disk open_file empty_file sevens 10 3 refl (omega arith)
      (omega arith) (omega arith)

read_inode-write_inode_example :
    (read_inode
        (write_inode blank_disk two_blocks)
        two_blocks.my_inode_block_no
        two_blocks.my_inode_offset
      ≡ two_blocks)
    × (read_inode (write_inode blank_disk two_blocks) 1 0 ≡ read_inode blank_disk 1 0)
read_inode-write_inode_example =
    read_inode-write_inode blank_disk two_blocks 1 0 two_blocks-InodeFits (omega arith)
      (omega arith) (omega arith) (inr (inl (omega arith)))

abbrev first : Place
first = (1, 0)

alloc_inodes-formatted_example :
    ((alloc_inodes zeros 200 (formatted zeros sevens blank_disk)).0 ≡ places 50 1)
    × (alloc_inode zeros (alloc_inodes zeros 200 (formatted zeros sevens blank_disk)).1 ≡ none)
alloc_inodes-formatted_example = alloc_inodes-formatted zeros sevens blank_disk zeros-IsBytes

alloc_block_lem_example :
    (d' : Disk) × (alloc_block disk two_blocks
      ≡ some (record two_blocks { block_no = set two_blocks.block_no 2 (next_block disk) }, d'))
    × (56 ≤ next_block disk)
    × (busy (bitmap disk) (next_block disk) ≡ false)
    × (busy (bitmap d') 56 ≡ ((56 == next_block disk) || busy (bitmap disk) 56))
    × (d' (sector_of (next_block disk)) 3 ≡ 0)
    × (d' (sector_of 60) ≡ disk (sector_of 60))
unfolding free_slot
alloc_block_lem_example =
    alloc_block_lem disk two_blocks 2 56 60 3 disk-Bitmapped (omega (arith, disk-next_block)) refl
      (omega arith) (omega arith) (omega arith) (λ e. absurd (omega (arith, disk-next_block)))
      (omega arith)

update-busy_clears_byte_example :
    (d' : Disk) × (update_data_block_bit disk 1 block_busy ≡ some d')
    × (busy (bitmap d') 2 ≡ (block_busy == block_busy && 2 == 1))
update-busy_clears_byte_example =
    update-busy_clears_byte disk 1 2 block_busy (omega arith) bits-IsBytes
      (reserved 1 (omega arith)) (inl refl) refl

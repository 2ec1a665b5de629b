-- ===== src/File/Inodes/RoundTrip.antt =====
-- What is written to an inode or to the super block is what is read from it.
use nbos.Base.{ℕ, ◌+◌, ◌^◌, ◌≤◌, ◌<◌, ◌≡◌, ◌≢◌, ◌⊎◌, inl, inr, arith, ◌∙◌, ap}
use native.Mathlib.Decide.{ℕ_discrete}
use nbos.Base.Bytes.{Bytes}
use nbos.File.Disk.{Disk, sector_of, write_block_self, write_block_ne}
use nbos.File.Layout.{
  Inode, SuperBlock, InodeFits, SuperFits, inode_size, encode_inode, decode_inode, encode_super,
}
use nbos.File.Layout.Codec.{
  decode_inode-encode_inode, decode_inode_eq, decode_inode-encode_inode_ne,
  decode_super-encode_super, decode_super_eq,
}
use nbos.File.Inodes.{read_super_block, write_super_block, read_inode, write_inode}

module _ (d : Disk) (i : Inode) (fits : InodeFits i) where
  abbrev new : Bytes
  new = encode_inode i (d (sector_of i.my_inode_block_no)) i.my_inode_offset

  -- The inode that was written, at its place.
  pub read_inode-write_inode_self :
      i.my_inode_offset + inode_size ≤ 512
      → read_inode (write_inode d i) i.my_inode_block_no i.my_inode_offset ≡ i
  unfolding read_inode write_inode
  read_inode-write_inode_self room =
      decode_inode_eq _ _ i.my_inode_offset
        (λ k lo hi. write_block_self d new i.my_inode_block_no k (omega arith))
      ∙ decode_inode-encode_inode i fits (d (sector_of i.my_inode_block_no)) i.my_inode_offset

  same_block :
      (o : ℕ)
      → o + inode_size ≤ 512
      → (o + inode_size ≤ i.my_inode_offset) ⊎ (i.my_inode_offset + inode_size ≤ o)
      → read_inode (write_inode d i) i.my_inode_block_no o ≡ read_inode d i.my_inode_block_no o
  unfolding read_inode write_inode
  same_block o ho apart =
      decode_inode_eq _ _ o (λ k lo hi. write_block_self d new i.my_inode_block_no k (omega arith))
      ∙ decode_inode-encode_inode_ne i (d (sector_of i.my_inode_block_no)) i.my_inode_offset o
          fits.slots apart

  -- An inode in another place, of the same block or of another.
  pub read_inode-write_inode_ne :
      (b o : ℕ)
      → b < 2 ^ 32
      → o + inode_size ≤ 512
      → (b ≢ i.my_inode_block_no)
        ⊎ ((o + inode_size ≤ i.my_inode_offset) ⊎ (i.my_inode_offset + inode_size ≤ o))
      → read_inode (write_inode d i) b o ≡ read_inode d b o
  unfolding read_inode write_inode
  read_inode-write_inode_ne b o hb ho (inl ne) =
      ap (λ (s : Bytes). decode_inode s o)
        (write_block_ne d new i.my_inode_block_no b fits.my_block hb ne)
  read_inode-write_inode_ne b o hb ho (inr apart) = elim (ℕ_discrete b i.my_inode_block_no) [
    | yes e ↦ rw e (same_block o ho apart)
    | no ne ↦
        ap (λ (s : Bytes). decode_inode s o)
          (write_block_ne d new i.my_inode_block_no b fits.my_block hb ne)
  ]

-- After `writeInode` of an inode whose fields fit their types and whose place lies inside a block,
-- that place reads back the inode, and any other place, in the same block or in another, reads as
-- it did before.
pub read_inode-write_inode :
    (d : Disk) (i : Inode) (b o : ℕ)
    → InodeFits i
    → i.my_inode_offset + inode_size ≤ 512
    → b < 2 ^ 32
    → o + inode_size ≤ 512
    → (b ≢ i.my_inode_block_no)
      ⊎ ((o + inode_size ≤ i.my_inode_offset) ⊎ (i.my_inode_offset + inode_size ≤ o))
    → (read_inode (write_inode d i) i.my_inode_block_no i.my_inode_offset ≡ i)
      × (read_inode (write_inode d i) b o ≡ read_inode d b o)
read_inode-write_inode d i b o fits room hb ho apart =
    (read_inode-write_inode_self d i fits room, read_inode-write_inode_ne d i fits b o hb ho apart)

-- After `write_superBlock` the super block is read back as it was written.
pub read_super_block-write_super_block :
    (behind : Bytes) (d : Disk) (s : SuperBlock)
    → SuperFits s
    → read_super_block (write_super_block behind d s) ≡ s
unfolding read_super_block write_super_block
read_super_block-write_super_block behind d s fits =
    decode_super_eq _ _ (λ k h. write_block_self d (encode_super s behind) 0 k (omega arith))
    ∙ decode_super-encode_super s fits behind

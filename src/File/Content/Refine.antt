-- ===== src/File/Content/Refine.antt =====
-- A file whose blocks are allocated is an array of bytes.
use Prim.Native.Nat.{min}
use native.Mathlib.Decide.{ℕ_discrete}
use nbos.Base.{
  ℕ, zero, suc, ◌+◌, ◌-◌, ◌*◌, ◌/◌, ◌%◌, ◌^◌, ◌≤◌, ◌<◌, ◌≡◌, ◌≢◌, refl, arith, false, ◌&&◌, ◌==◌,
  ne→==, ==_refl, ltb, leb, some, ap, ◌∙◌, if◌then◌else◌, get_or, get_elem?,
}
use nbos.Base.Bytes.{Bytes}
use nbos.Memory.Copy.{memmov, memmov_at}
use nbos.File.Disk.{Disk, k_readsector, sector_of, write_block, write_block_self, write_block_ne}
use nbos.File.Layout.{Inode}
use nbos.File.Content.{OpenFile, write_loop, write_file, got, read_loop, read_file_at_offset}

abbrev pub block_at : Inode → ℕ → ℕ
block_at i j = get_or i.block_no j 0

-- The byte `p` of a file.
abbrev pub content : Disk → Inode → ℕ → ℕ
content d i p = d (sector_of (block_at i (p / 512))) (p % 512)

-- The first `n` blocks of the file are allocated, and no two are the same.
pub record Mapped (i : Inode) (n : ℕ) : Type 0 where
  pub small : n ≤ 20
  pub here : (j : ℕ) → j < n → get_elem? i.block_no j ≡ some (block_at i j)
  pub nonzero : (j : ℕ) → j < n → block_at i j ≢ 0
  pub bound : (j : ℕ) → j < n → block_at i j < 2 ^ 31
  pub apart : (j k : ℕ) → j < n → k < n → j ≢ k → block_at i j ≢ block_at i k

module _ (i : Inode) (n : ℕ) (mapped : Mapped i n) where
  -- One block of the file written.
  content-write_block :
      (d : Disk) (arr : Bytes) (j p : ℕ)
      → j < n
      → p < n * 512
      → content (write_block d arr (block_at i j)) i p
        ≡ (if p / 512 == j then arr (p % 512) else content d i p)
  content-write_block d arr j p hj hp = elim (ℕ_discrete (p / 512) j) [
    | yes e ↦ rw (e, ==_refl j) (write_block_self d arr (block_at i j) (p % 512) (omega arith))
    | no ne ↦ rw (ne→== (p / 512) j ne) (
        ap (λ (b : Bytes). b (p % 512))
          (write_block_ne d arr (block_at i j) (block_at i (p / 512))
            (omega (arith, mapped.bound j hj)) (omega (arith, mapped.bound (p / 512) (omega arith)))
            (mapped.apart (p / 512) j (omega arith) hj ne)))
  ]

  write_loop-content :
      (fuel : ℕ) (d : Disk) (buf : Bytes) (start rest offset p : ℕ)
      → rest ≤ fuel
      → offset + rest ≤ n * 512
      → p < n * 512
      → ((write_loop fuel d i buf start rest offset).0 ≡ i)
        × (content (write_loop fuel d i buf start rest offset).1 i p ≡ (
            if leb offset p && ltb p (offset + rest)
            then buf (start + (p - offset))
            else content d i p))
  unfolding write_loop k_readsector
  write_loop-content zero d buf start rest offset p h fits hp = (refl, ground arith)
  write_loop-content (suc fuel) d buf start rest offset p h fits hp = elim (ℕ_discrete rest 0) [
    | yes e ↦ rw e (refl, ground arith)
    | no ne ↦
        let j : ℕ = offset / 512 in
        let left : ℕ = min (512 - offset % 512) rest in
        let arr : Bytes = memmov buf start (d (sector_of (block_at i j))) (offset % 512) left in
        let d' : Disk = write_block d arr (block_at i j) in
        let ih =
          write_loop-content fuel d' buf (start + left) (rest - left) (offset + left) p
            (omega arith) (omega arith) hp in
        rw (ne→== rest 0 ne, ne→== (block_at i j) 0 (mapped.nonzero j (omega arith)))
          (
            ih.0,
            ih.1
                ∙ ground (
                  arith,
                  content-write_block d arr j p (omega arith) hp,
                  memmov_at left buf start (d (sector_of (block_at i j))) (offset % 512) (p % 512),
                ),
          )
  ]

  read_loop-content :
      (fuel : ℕ) (d : Disk) (offset : ℕ) (buf : Bytes) (next rest read_size k : ℕ)
      → rest ≤ fuel
      → offset + rest ≤ n * 512
      → (out : Bytes) × (read_loop fuel d i offset buf next rest read_size
          ≡ got (read_size + rest) out)
        × (out k ≡ (
            if leb next k && ltb k (next + rest) then content d i (offset + (k - next)) else buf k))
  unfolding read_loop k_readsector
  read_loop-content zero d offset buf next rest read_size k h fits =
      (buf, ap (λ (m : ℕ). got m buf) (omega arith), ground arith)
  read_loop-content (suc fuel) d offset buf next rest read_size k h fits =
      elim (ℕ_discrete rest 0) [
        | yes e ↦ (buf, rw e (ap (λ (m : ℕ). got m buf) (omega arith)), rw e (ground arith))
        | no ne ↦
            let j : ℕ = offset / 512 in
            let left : ℕ = min (512 - offset % 512) rest in
            let block : Bytes = d (sector_of (block_at i j)) in
            let buf' : Bytes = memmov block (offset % 512) buf next left in
            let (out, e, at) =
              read_loop-content fuel d (offset + left) buf' (next + left) (rest - left)
                (read_size + left) k (omega arith) (omega arith) in
            (
              out,
              rw
                  (
                    ne→== rest 0 ne,
                    mapped.here j (omega arith),
                    ne→== (block_at i j) 0 (mapped.nonzero j (omega arith)),
                  )
                  (e ∙ ap (λ (m : ℕ). got m out) (omega arith)),
              at ∙ ground (arith, memmov_at left block (offset % 512) buf next k),
            )
      ]

-- Writing `size` bytes at the open file's offset, where the file's first `n` blocks are allocated
-- and the bytes lie in them, succeeds, keeps the inode and moves the offset by `size`. Of the file's
-- bytes, those in the range are the ones written, and any other byte `p` is as before.
pub write_file-content :
    (d : Disk) (file : OpenFile) (i : Inode) (buf : Bytes) (size n p : ℕ)
    → Mapped i n
    → file.offset + size ≤ n * 512
    → p < n * 512
    → (d' : Disk) × (write_file d file i buf size
        ≡ some (i, record file { offset = file.offset + size }, d'))
      × (content d' i p ≡ (
          if leb file.offset p && ltb p (file.offset + size)
          then buf (p - file.offset)
          else content d i p))
unfolding write_file
write_file-content d file i buf size n p mapped fits hp =
    let w = write_loop-content i n mapped size d buf 0 size file.offset p (omega arith) fits hp in
    let word : (file.offset + size) % 2 ^ 32 ≡ file.offset + size = omega (arith, mapped.small) in
    let allowed : ltb (20 * 512) (file.offset + size) ≡ false = ground (arith, mapped.small) in
    ((write_loop size d i buf 0 size file.offset).1, rw (word, allowed, w.0), w.1 ∙ ground arith)

-- Reading `size` bytes at an offset not beyond the file's size, where the file's first `n` blocks
-- are allocated and the bytes lie in them, returns `size` and puts the file's bytes into the buffer,
-- of which any byte `k` behind them stays.
pub read_file_at_offset-content :
    (d : Disk) (i : Inode) (offset : ℕ) (buf : Bytes) (size n k : ℕ)
    → Mapped i n
    → offset ≤ i.size
    → offset + size ≤ n * 512
    → (out : Bytes) × (read_file_at_offset d i offset buf size ≡ got size out)
      × (out k ≡ (if ltb k size then content d i (offset + k) else buf k))
unfolding read_file_at_offset
read_file_at_offset-content d i offset buf size n k mapped le fits =
    let (out, e, at) =
      read_loop-content i n mapped size d offset buf 0 size 0 k (omega arith) fits in
    let inside : ltb i.size offset ≡ false = ground arith in
    (out, rw inside (e ∙ ap (λ (m : ℕ). got m out) (omega arith)), at ∙ ground arith)

-- What is written to a file is what is read back from it, where the file's first `n` blocks are
-- allocated, the bytes lie in them and the offset is not beyond the file's size: the bytes `buf`
-- of the write arrive in the buffer of a read at the same offset and of the same size.
pub read_file-write_file :
    (d : Disk) (file : OpenFile) (i : Inode) (buf blank : Bytes) (size n k : ℕ)
    → Mapped i n
    → file.offset ≤ i.size
    → file.offset + size ≤ n * 512
    → k < size
    → (d' : Disk) × (out : Bytes) × (write_file d file i buf size
        ≡ some (i, record file { offset = file.offset + size }, d'))
      × (read_file_at_offset d' i file.offset blank size ≡ got size out)
      × (out k ≡ buf k)
read_file-write_file d file i buf blank size n k mapped le fits hk =
    let (d', wrote, at) =
      write_file-content d file i buf size n (file.offset + k) mapped fits (omega arith) in
    let (out, read, each) =
      read_file_at_offset-content d' i file.offset blank size n k mapped le fits in
    (d', out, wrote, read, each ∙ ground (arith, at))

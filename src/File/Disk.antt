-- ===== src/File/Disk.antt =====
-- The disk as file.c sees it: sectors of 512 bytes behind `k_readsector` and `k_writesector`, and the
-- blocks of the file system, which start at sector 300.
use nbos.Base.{ℕ, ◌+◌, ◌%◌, ◌^◌, ◌<◌, ◌≡◌, ◌≢◌, ◌&&◌, arith, ltb, ◌==◌, if◌then◌else◌, fun_ext}
use nbos.Base.Bytes.{Bytes}

-- From a sector's number to its content.
abbrev pub Disk : Type 0
Disk = ℕ → Bytes

abbrev pub block_size : ℕ
block_size = 512

abbrev pub super_block_sector : ℕ
super_block_sector = 300

-- Block numbers are `unsigned int`.
abbrev pub sector_of : ℕ → ℕ
sector_of block_no = (block_no + super_block_sector) % 2 ^ 32

-- What the 512 bytes of a buffer become. A buffer's bytes past them belong to other variables: where the
-- source reads them, in `getFreeBlock` on a full bitmap and in `strmatch` near the end of a block, the model
-- reads positions from 512 on of the sector's map, which stand for whatever bytes are there.
unfoldable pub k_readsector : Disk → ℕ → Bytes
k_readsector d sector = d sector

unfoldable pub k_writesector : Disk → ℕ → Bytes → Disk
k_writesector d sector b s i = if (s == sector) && ltb i 512 then b i else d s i

-- `write_block` copies the block to a buffer of its own first.
unfoldable pub write_block : Disk → Bytes → ℕ → Disk
unfolding k_writesector
write_block d block block_no = k_writesector d (sector_of block_no) block

-- `clearBlock`
unfoldable pub clear_block : Disk → ℕ → Disk
unfolding write_block
clear_block d block_no = write_block d (λ _. 0) block_no

abbrev pub read_block : Disk → ℕ → Bytes
read_block d block_no = k_readsector d (sector_of block_no)

pub write_block_self :
    (d : Disk) (b : Bytes) (n i : ℕ) → i < 512 → write_block d b n (sector_of n) i ≡ b i
unfolding write_block
write_block_self d b n i h = ground arith

pub write_block_ne :
    (d : Disk) (b : Bytes) (n m : ℕ)
    → n < 2 ^ 32
    → m < 2 ^ 32
    → m ≢ n
    → write_block d b n (sector_of m) ≡ d (sector_of m)
unfolding write_block
write_block_ne d b n m hn hm ne = fun_ext (λ i. ground arith)

pub clear_block_self : (d : Disk) (n i : ℕ) → i < 512 → clear_block d n (sector_of n) i ≡ 0
unfolding clear_block
clear_block_self d n i h = ground arith

pub clear_block_ne :
    (d : Disk) (n m : ℕ)
    → n < 2 ^ 32
    → m < 2 ^ 32
    → m ≢ n
    → clear_block d n (sector_of m) ≡ d (sector_of m)
unfolding clear_block
clear_block_ne d n m hn hm ne = fun_ext (λ i. ground arith)

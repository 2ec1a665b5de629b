-- ===== src/File/Bitmap/Update.antt =====
-- What `update_dataBlockBit` does to the bitmap.
use Prim.Native.Nat.{bit_and, bit_or}
use native.Mathlib.Decide.{ℕ_discrete}
use native.Mathlib.Nat.{one-mul, zero-mul}
use nbos.Base.{
  ℕ, ◌*◌, ◌/◌, ◌%◌, ◌^◌, ◌≤◌, ◌<◌, ◌≡◌, ◌≢◌, ◌⊎◌, inl, inr, refl, arith, true, false, ◌||◌, ◌&&◌,
  ◌==◌, not, ltb, ==_refl, ne→==, some, ◌∙◌, if◌then◌else◌,
}
use nbos.Base.Bytes.{Bytes, IsBytes, write8}
use nbos.File.Disk.{Disk, sector_of, write_block, write_block_self, write_block_ne, k_readsector}
use nbos.File.Bitmap.{bit_set, update_data_block_bit, block_busy, block_free, updated}
use nbos.File.Bitmap.Bits.{
  bit_set-or, bit_set-pow, bit_set-zero, bit_and-byte_zero, pow-lt_byte, bit_or-lt, bit_and-bit_set,
}
use nbos.File.Bitmap.Scan.{busy}

-- The bitmap block 51, which covers the blocks below 4096, and so all that the code accepts.
abbrev pub bitmap : Disk → Bytes
bitmap d = d (sector_of 51)

-- A block number that `update_dataBlockBit` accepts.
abbrev pub Accepted : ℕ → Type 0
Accepted n = n ≤ 700

-- The byte of block `n` replaced by `v`.
abbrev with_byte : Disk → ℕ → ℕ → Disk
with_byte d n v = write_block d (write8 (bitmap d) (n / 8) v) 51

update_eq :
    (d : Disk) (n status : ℕ)
    → Accepted n
    → (status ≡ 1) ⊎ (status ≡ 0)
    → update_data_block_bit d n status
      ≡ some (
          if busy (bitmap d) n
          then with_byte d n (bit_and (bitmap d (n / 8)) (status * 2 ^ (n % 8)))
          else with_byte d n (bit_or (bitmap d (n / 8)) (status * 2 ^ (n % 8))))
unfolding update_data_block_bit k_readsector
update_eq d n status ok s =
    let block : n / 4096 ≡ 0 = omega arith in
    let byte : n % 4096 / 8 ≡ n / 8 = omega arith in
    let bit : n % 4096 % 8 ≡ n % 8 = omega arith in
    let accepted : (ltb 700 n || not (status == 1 || status == 0)) ≡ false = ground arith in
    rw (block, byte, bit, accepted)

busy-with_byte :
    (d : Disk) (n v m : ℕ)
    → v < 256
    → m < 4096
    → busy (bitmap (with_byte d n v)) m
      ≡ (if m / 8 == n / 8 then bit_set v (m % 8) else busy (bitmap d) m)
unfolding write8
busy-with_byte d n v m h hm =
    let byte = write_block_self d (write8 (bitmap d) (n / 8) v) 51 (m / 8) (omega arith) in
    let small : v % 256 ≡ v = omega arith in
    elim (ℕ_discrete (m / 8) (n / 8)) [
      | yes e ↦ rw (byte, e, ==_refl (n / 8), small)
      | no ne ↦ rw (byte, ne→== _ _ ne)
    ]

-- Marking a free block busy sets its bit, and leaves the bit of every other block `m` of the bitmap
-- and the content of every other block `c` of the disk as they were.
pub update-free_to_busy :
    (d : Disk) (n m c : ℕ)
    → Accepted n
    → IsBytes (bitmap d)
    → busy (bitmap d) n ≡ false
    → m < 4096
    → c < 2 ^ 32
    → c ≢ 51
    → (d' : Disk) × (update_data_block_bit d n block_busy ≡ some d')
      × (busy (bitmap d') m ≡ ((m == n) || busy (bitmap d) m))
      × (d' (sector_of c) ≡ d (sector_of c))
update-free_to_busy d n m c ok bytes free hm hc ne = (
  with_byte d n v,
  update_eq d n 1 ok (inl refl) ∙ rw (free, one-mul),
  bits,
  write_block_ne d _ 51 c (omega arith) hc ne,
)
  where
    v : ℕ
    v = bit_or (bitmap d (n / 8)) (2 ^ (n % 8))

    bits : busy (bitmap (with_byte d n v)) m ≡ ((m == n) || busy (bitmap d) m)
    bits =
        busy-with_byte d n v m (bit_or-lt (bitmap d (n / 8)) (n % 8) (bytes (n / 8)) (omega arith))
          hm
        ∙ elim (ℕ_discrete (m / 8) (n / 8)) [
          | yes e ↦
              let set_one =
                bit_set-or (bitmap d (n / 8)) (n % 8) (m % 8) (bytes (n / 8)) (omega arith)
                  (omega arith) in
              let places : (m % 8 == n % 8) ≡ (m == n) = ground arith in
              rw (e, ==_refl (n / 8), set_one, places)
          | no other ↦ let differ : (m == n) ≡ false = ground arith in rw (ne→== _ _ other, differ)
        ]

pub updated-free_to_busy :
    (d : Disk) (n m c : ℕ)
    → Accepted n
    → IsBytes (bitmap d)
    → busy (bitmap d) n ≡ false
    → m < 4096
    → c < 2 ^ 32
    → c ≢ 51
    → (busy (bitmap (updated d (update_data_block_bit d n block_busy))) m
        ≡ ((m == n) || busy (bitmap d) m))
      × (updated d (update_data_block_bit d n block_busy) (sector_of c) ≡ d (sector_of c))
updated-free_to_busy d n m c ok bytes free hm hc ne =
    let (d', e, marked, others) = update-free_to_busy d n m c ok bytes free hm hc ne in
    rw e (marked, others)

-- Any update of a block that is marked busy, whether to busy or to free, replaces its whole byte:
-- of the eight blocks `m` of that byte, block `n` has the new status, and the other seven are free
-- afterwards, even if they were in use.
pub update-busy_clears_byte :
    (d : Disk) (n m status : ℕ)
    → Accepted n
    → IsBytes (bitmap d)
    → busy (bitmap d) n ≡ true
    → (status ≡ block_busy) ⊎ (status ≡ block_free)
    → m / 8 ≡ n / 8
    → (d' : Disk) × (update_data_block_bit d n status ≡ some d')
      × (busy (bitmap d') m ≡ (status == block_busy && m == n))
update-busy_clears_byte d n m status ok bytes was s e = (
  with_byte d n v,
  update_eq d n status ok s ∙ rw was,
  busy-with_byte d n v m (value s).0 (omega arith) ∙ rw (e, ==_refl (n / 8)) (value s).1,
)
  where
    byte : ℕ
    byte = bitmap d (n / 8)

    v : ℕ
    v = bit_and byte (status * 2 ^ (n % 8))

    place : (m % 8 == n % 8) ≡ (m == n)
    place = ground arith

    value :
        (status ≡ block_busy) ⊎ (status ≡ block_free)
        → (v < 256) × (bit_set v (m % 8) ≡ (status == block_busy && m == n))
    value (inl one) =
        let only = bit_and-bit_set byte (n % 8) (bytes (n / 8)) (omega arith) was in
        rw (one, one-mul, only)
          (
            pow-lt_byte (n % 8) (omega arith),
            bit_set-pow (n % 8) (m % 8) (omega arith) (omega arith) ∙ place,
          )
    value (inr nil) =
        rw (nil, zero-mul, bit_and-byte_zero byte (bytes (n / 8)))
          (omega arith, bit_set-zero (m % 8) (omega arith))

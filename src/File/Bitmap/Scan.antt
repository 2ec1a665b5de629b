-- ===== src/File/Bitmap/Scan.antt =====
-- `getFreeBlock` finds the first block whose bit is clear.
use nbos.Base.{
  ℕ, zero, suc, ◌+◌, ◌*◌, ◌/◌, ◌%◌, ◌≤◌, ◌<◌, ◌≡◌, ◌≢◌, refl, arith, Bool, true, false, ap, sym,
  ◌∙◌,
}
use native.Mathlib.Decide.{ℕ_discrete}
use nbos.Base.Bytes.{Bytes, IsBytes}
use nbos.File.Bitmap.{bit_set, free_byte, free_bit, get_free_block}
use nbos.File.Bitmap.Bits.{free_bit-lt, free_bit-clear, free_bit-below, bit_set_255}

-- The bit of block `n` in a bitmap block.
abbrev pub busy : Bytes → ℕ → Bool
busy bits n = bit_set (bits (n / 8)) (n % 8)

module _ (start : Bytes) where
  free_byte-le : (n i : ℕ) → (i ≤ free_byte start n i) × (free_byte start n i ≤ i + n)
  unfolding free_byte
  free_byte-le zero i = omega arith
  free_byte-le (suc n) i = ground (arith, free_byte-le n (i + 1))

  free_byte-below : (n i m : ℕ) → i ≤ m → m < free_byte start n i → start m ≡ 255
  unfolding free_byte
  free_byte-below zero i m lo hi = absurd (omega arith)
  free_byte-below (suc n) i m lo hi = elim (ℕ_discrete m i) [
    | yes e ↦ ground arith
    | no ne ↦ ground (arith, free_byte-below n (i + 1) m)
  ]

  free_byte-ne :
      (n i k : ℕ)
      → i ≤ k
      → k < i + n
      → start k ≢ 255
      → (free_byte start n i ≤ k) × (start (free_byte start n i) ≢ 255)
  unfolding free_byte
  free_byte-ne zero i k lo hi ne = absurd (omega arith)
  free_byte-ne (suc n) i k lo hi ne = elim (ℕ_discrete (start i) 255) [
    | yes e ↦
        let after : i ≢ k = λ (p : i ≡ k). ne (ap start (sym p) ∙ e) in
        ground (arith, free_byte-ne n (i + 1) k)
    | no here ↦ ground arith
  ]

  free_byte-stops : (n i : ℕ) → free_byte start n i < i + n → start (free_byte start n i) ≢ 255
  unfolding free_byte
  free_byte-stops zero i h = absurd (omega arith)
  free_byte-stops (suc n) i h = elim (ℕ_discrete (start i) 255) [
    | yes e ↦ ground (arith, free_byte-stops n (i + 1))
    | no here ↦ ground arith
  ]

  free_byte-full :
      (n i : ℕ) → ((k : ℕ) → i ≤ k → k < i + n → start k ≡ 255) → free_byte start n i ≡ i + n
  unfolding free_byte
  free_byte-full zero i full = omega arith
  free_byte-full (suc n) i full =
      let here = full i (omega arith) (omega arith) in
      let rest = free_byte-full n (i + 1) (λ k lo hi. full k (omega arith) (omega arith)) in
      ground arith

  -- A block of the bitmap is the bit `t` of the byte `f`.
  busy-split : (f t n : ℕ) → n ≡ f * 8 + t → t < 8 → busy start n ≡ bit_set (start f) t
  busy-split f t n e h =
      let q : n / 8 ≡ f = omega arith in let r : n % 8 ≡ t = omega arith in rw (q, r)

-- In a bitmap of `size` bytes, where some byte is not full, the block that `getFreeBlock` returns
-- lies in the bitmap and is free, and every block `m` before it is busy.
pub get_free_block_lem :
    (start : Bytes) (size k m : ℕ)
    → IsBytes start
    → k < size
    → start k ≢ 255
    → m < get_free_block start size
    → (get_free_block start size < size * 8)
      × (busy start (get_free_block start size) ≡ false)
      × (busy start m ≡ true)
unfolding get_free_block
get_free_block_lem start size k m bytes h ne below = (
  omega (arith, lt, found.0),
  busy-split start f t _ refl lt ∙ free_bit-clear (start f) (bytes f) found.1,
  before,
)
  where
    f : ℕ
    f = free_byte start size 0

    t : ℕ
    t = free_bit 9 (start f) 0

    found : (f ≤ k) × (start f ≢ 255)
    found = free_byte-ne start size 0 k (omega arith) (omega arith) ne

    lt : t < 8
    lt = free_bit-lt (start f) (bytes f) found.1

    before : busy start m ≡ true
    before = elim (ℕ_discrete (m / 8) f) [
      | yes e ↦
          busy-split start f (m % 8) m (omega arith) (omega arith)
          ∙ free_bit-below (start f) (bytes f) found.1 (m % 8) (omega arith)
      | no earlier ↦
          rw (free_byte-below start size 0 (m / 8) (omega arith) (omega (arith, lt)))
            (bit_set_255 (m % 8) (omega arith))
    ]

-- A result inside the bitmap is a free block, and the busy blocks at the front are before it.
pub get_free_block-free :
    (start : Bytes) (size : ℕ)
    → IsBytes start
    → get_free_block start size < size * 8
    → busy start (get_free_block start size) ≡ false
unfolding get_free_block
get_free_block-free start size bytes h =
    let f = free_byte start size 0 in
    let stop = free_byte-stops start size 0 (omega arith) in
    busy-split start f (free_bit 9 (start f) 0) _ refl (free_bit-lt (start f) (bytes f) stop)
    ∙ free_bit-clear (start f) (bytes f) stop

-- In a full bitmap `getFreeBlock` returns the number of a block behind the bitmap, and not -1.
pub get_free_block_full :
    (start : Bytes) (size : ℕ)
    → ((k : ℕ) → k < size → start k ≡ 255)
    → size * 8 ≤ get_free_block start size
unfolding get_free_block
get_free_block_full start size full =
    let reaches = free_byte-full start size 0 (λ k lo hi. full k (omega arith)) in omega arith

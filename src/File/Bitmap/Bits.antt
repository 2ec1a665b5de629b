-- ===== src/File/Bitmap/Bits.antt =====
-- The bits of a byte under the operations of the bitmap, checked for each byte and each bit.
use Prim.Native.Nat.{bit_and, bit_or}
use nbos.Base.{
  ℕ, ◌^◌, ◌<◌, ◌≡◌, ◌≢◌, refl, arith, Bool, true, false, not, ◌&&◌, ◌||◌, ◌==◌, ltb, ==_iff,
}
use nbos.Base.Bits.{all_below, all_below_sound}
use nbos.File.Bitmap.{bit_set, free_bit}

abbrev same : Bool → Bool → Bool
same true b = b
same false b = not b

same-eq : (a b : Bool) → same a b ≡ true → a ≡ b
same-eq true b h = ground arith
same-eq false b h = ground arith

abbrev or_row : ℕ → ℕ → ℕ → Bool
or_row b k j = same (bit_set (bit_or b (2 ^ k)) j) ((j == k) || bit_set b j)

or_table : all_below 256 (λ b. all_below 8 (λ k. all_below 8 (or_row b k))) ≡ true
unfolding all_below bit_set
or_table = refl

-- Setting a bit sets that one and no other.
pub bit_set-or :
    (b k j : ℕ) → b < 256 → k < 8 → j < 8 → bit_set (bit_or b (2 ^ k)) j ≡ ((j == k) || bit_set b j)
bit_set-or b k j hb hk hj = same-eq _ _ (
    all_below_sound 8 (or_row b k) j
      (all_below_sound 8 (λ k. all_below 8 (or_row b k)) k
        (all_below_sound 256 (λ b. all_below 8 (λ k. all_below 8 (or_row b k))) b or_table hb) hk)
      hj)

or_lt_row : ℕ → ℕ → Bool
or_lt_row b k = ltb (bit_or b (2 ^ k)) 256

or_lt_table : all_below 256 (λ b. all_below 8 (or_lt_row b)) ≡ true
unfolding all_below or_lt_row
or_lt_table = refl

pub bit_or-lt : (b k : ℕ) → b < 256 → k < 8 → bit_or b (2 ^ k) < 256
unfolding or_lt_row
bit_or-lt b k hb hk = ground (
  arith,
  all_below_sound 8 (or_lt_row b) k
      (all_below_sound 256 (λ b. all_below 8 (or_lt_row b)) b or_lt_table hb) hk,
)

abbrev and_row : ℕ → ℕ → Bool
and_row b k = not (bit_set b k) || (bit_and b (2 ^ k) == 2 ^ k)

and_table : all_below 256 (λ b. all_below 8 (and_row b)) ≡ true
unfolding all_below bit_set
and_table = refl

-- A byte with a bit set, masked by that bit, is that bit.
pub bit_and-bit_set : (b k : ℕ) → b < 256 → k < 8 → bit_set b k ≡ true → bit_and b (2 ^ k) ≡ 2 ^ k
bit_and-bit_set b k hb hk h = (==_iff _ _).0 (
    ground (
      arith,
      all_below_sound 8 (and_row b) k
          (all_below_sound 256 (λ b. all_below 8 (and_row b)) b and_table hb) hk,
    ))

abbrev free_row : ℕ → Bool
free_row b =
    (b == 255)
    || (ltb (free_bit 9 b 0) 8 && not (bit_set b (free_bit 9 b 0)))
      && all_below (free_bit 9 b 0) (bit_set b)

free_table : all_below 256 free_row ≡ true
unfolding all_below bit_set free_bit
free_table = refl

-- In a byte that is not 255 the scan stops at a clear bit behind set ones.
module _ (b : ℕ) (hb : b < 256) (ne : b ≢ 255) where
  row : free_row b ≡ true
  row = all_below_sound 256 free_row b free_table hb

  pub free_bit-lt : free_bit 9 b 0 < 8
  free_bit-lt = ground (arith, row)

  pub free_bit-clear : bit_set b (free_bit 9 b 0) ≡ false
  free_bit-clear = ground (arith, row)

  pub free_bit-below : (j : ℕ) → j < free_bit 9 b 0 → bit_set b j ≡ true
  free_bit-below j h = all_below_sound (free_bit 9 b 0) (bit_set b) j (ground (arith, row)) h

pub bit_set_255 : (j : ℕ) → j < 8 → bit_set 255 j ≡ true
unfolding all_below bit_set
bit_set_255 j h = all_below_sound 8 (bit_set 255) j table h
  where
    table : all_below 8 (bit_set 255) ≡ true
    table = refl

abbrev pow_row : ℕ → ℕ → Bool
pow_row k j = same (bit_set (2 ^ k) j) (j == k)

-- A power of two has one bit, and zero has none.
pub bit_set-pow : (k j : ℕ) → k < 8 → j < 8 → bit_set (2 ^ k) j ≡ (j == k)
unfolding all_below bit_set
bit_set-pow k j hk hj = same-eq _ _ (
    all_below_sound 8 (pow_row k) j (all_below_sound 8 (λ k. all_below 8 (pow_row k)) k refl hk) hj)

pub bit_set-zero : (j : ℕ) → j < 8 → bit_set 0 j ≡ false
unfolding all_below bit_set
bit_set-zero j hj = same-eq _ _ (all_below_sound 8 (λ j. same (bit_set 0 j) false) j refl hj)

pub bit_and-byte_zero : (b : ℕ) → b < 256 → bit_and b 0 ≡ 0
unfolding all_below
bit_and-byte_zero b h = (==_iff _ _).0 (all_below_sound 256 (λ b. bit_and b 0 == 0) b refl h)

pub pow-lt_byte : (k : ℕ) → k < 8 → 2 ^ k < 256
unfolding all_below
pow-lt_byte k h = ground (arith, all_below_sound 8 (λ k. ltb (2 ^ k) 256) k refl h)

-- ===== src/Memory/Copy.antt =====
-- `memmov` and `memcopy` of memory.c and `strcopy` of str.c: bytes copied one by one, upwards.
use nbos.Base.{
  ℕ, zero, suc, ◌+◌, ◌-◌, ◌≤◌, ◌<◌, ◌≡◌, ◌⊎◌, arith, ◌&&◌, ltb, leb, ◌==◌, if◌then◌else◌, ◌∙◌,
}
use nbos.Base.Bytes.{Bytes}

unfoldable pub put : Bytes → ℕ → ℕ → Bytes
put m p v k = if k == p then v else m k

-- `rep movsb` between two variables: `n` bytes from `source + s` to `dest + d`.
unfoldable pub memmov : Bytes → ℕ → Bytes → ℕ → ℕ → Bytes
memmov source s dest d zero = dest
memmov source s dest d (suc n) = memmov source (s + 1) (put dest d (source s)) (d + 1) n

-- The same inside one region, where the bytes written may be read later.
unfoldable pub move_within : Bytes → ℕ → ℕ → ℕ → Bytes
move_within m s d zero = m
move_within m s d (suc n) = move_within (put m d (m s)) (s + 1) (d + 1) n

-- `fill` of memory.c.
unfoldable pub fill : Bytes → ℕ → ℕ → ℕ → Bytes
fill m p zero v = m
fill m p (suc n) v = fill (put m p v) (p + 1) n v

-- A copied byte is the one of the source, and the others stay.
pub memmov_at :
    (n : ℕ) (source : Bytes) (s : ℕ) (dest : Bytes) (d k : ℕ)
    → memmov source s dest d n k
      ≡ (if leb d k && ltb k (d + n) then source (s + (k - d)) else dest k)
unfolding memmov put
memmov_at zero source s dest d k = ground arith
memmov_at (suc n) source s dest d k =
    memmov_at n source (s + 1) (put dest d (source s)) (d + 1) k ∙ ground arith

-- The front of a variable that was copied to.
pub memmov-front :
    (n : ℕ) (source : Bytes) (s : ℕ) (dest : Bytes) (k : ℕ)
    → k < n
    → memmov source s dest 0 n k ≡ source (s + k)
memmov-front n source s dest k lt = memmov_at n source s dest 0 k ∙ ground arith

-- A move down, or between parts that do not overlap, copies the bytes as they were before it.
pub move_within_at :
    (n : ℕ) (m : Bytes) (s d k : ℕ)
    → (d ≤ s) ⊎ (s + n ≤ d)
    → move_within m s d n k ≡ (if leb d k && ltb k (d + n) then m (s + (k - d)) else m k)
unfolding move_within put
move_within_at zero m s d k h = ground arith
move_within_at (suc n) m s d k h =
    move_within_at n (put m d (m s)) (s + 1) (d + 1) k (omega arith) ∙ ground arith

pub fill_at :
    (n : ℕ) (m : Bytes) (p v k : ℕ) → fill m p n v k ≡ (if leb p k && ltb k (p + n) then v else m k)
unfolding fill put
fill_at zero m p v k = ground arith
fill_at (suc n) m p v k = fill_at n (put m p v) (p + 1) v k ∙ ground arith

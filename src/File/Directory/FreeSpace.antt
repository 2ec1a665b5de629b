-- ===== src/File/Directory/FreeSpace.antt =====
-- `isFree` and `getFreeOffsetInBlock` of file.c, which nothing calls.
use nbos.Base.{
  ℕ, zero, suc, ◌+◌, ◌≡◌, ◌≢◌, inl, inr, sym, ◌∙◌, Bool-cases, Option, none, some, ◌==◌,
  if◌then◌else◌,
}
use nbos.Base.Bytes.{Bytes}
use nbos.Base.Int.{ℤ, pos, negsuc}

-- The loop over `n` bytes; where all are 0 the function ends without a value, `none`.
unfoldable pub is_free_part : ℕ → Bytes → ℕ → Option ℕ
is_free_part zero m start = none
is_free_part (suc n) m start =
    let rest = is_free_part n m (start + 1) in if m start == 0 then rest else some 0

abbrev pub judged : ℕ → Option ℤ → Option ℕ → Option ℤ
judged offset rest none = none
judged offset rest (some b) = if b == 0 then rest else some (pos offset)

-- The loop with `n` bytes of the block left. It may look behind the block, as far as `size` reaches.
unfoldable pub free_offset : ℕ → Bytes → ℕ → ℕ → Option ℤ
unfolding is_free_part
free_offset zero m offset size = some (negsuc 0)
free_offset (suc n) m offset size =
    let rest = free_offset n m (offset + 1) size in judged offset rest (is_free_part size m offset)

unfoldable pub get_free_offset_in_block : Bytes → ℕ → Option ℤ
unfolding free_offset
get_free_offset_in_block blockhead size = free_offset 512 blockhead 0 size

-- `isFree` never answers that bytes are free.
pub is_free_part-never : (n : ℕ) (m : Bytes) (start : ℕ) → is_free_part n m start ≢ some 1
unfolding is_free_part
is_free_part-never zero m start e = cc e
is_free_part-never (suc n) m start e = elim (Bool-cases (m start == 0)) [
  | inl z ↦
      let later : is_free_part (suc n) m start ≡ is_free_part n m (start + 1) = rw z in
      is_free_part-never n m (start + 1) (sym later ∙ e)
  | inr o ↦ let zero_there : is_free_part (suc n) m start ≡ some 0 = rw o in cc (zero_there, e)
]

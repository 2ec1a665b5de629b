-- ===== src/Memory/Entry/Fill.antt =====
-- The words that the loops of `entry` write.
use nbos.Base.{
  ℕ, zero, suc, ◌+◌, ◌*◌, ◌^◌, ◌≤◌, ◌<◌, ◌≡◌, ◌⊎◌, inl, refl, sym, ap, ◌∙◌, arith, ltb, false,
}
use mathlib.Core.Path.{subst}
use native.Mathlib.Decide.{ℕ_discrete}
use nbos.Base.Bytes.{Bytes, read32, write32, read32-write32_self, read32-write32_ne}
use nbos.Memory.Pages.{vir_2_phy}
use nbos.Memory.Entry.{phy_size, kernel_flags, fill_table, fill_dir}

fill_table-outside :
    (n i j table p : ℕ) (mem : Bytes)
    → (p + 4 ≤ table + j * 4) ⊎ (table + (j + n) * 4 ≤ p)
    → read32 (fill_table n i j table mem) p ≡ read32 mem p
unfolding fill_table
fill_table-outside zero i j table p mem out = refl
fill_table-outside (suc n) i j table p mem out = ground (
  arith,
  fill_table-outside n i (j + 1) table p
      (write32 mem (table + j * 4) (i * 2 ^ 22 + j * 4096 + kernel_flags)) (omega arith),
  read32-write32_ne mem (table + j * 4) (i * 2 ^ 22 + j * 4096 + kernel_flags) p (omega arith),
)

fill_table-entry :
    (n i j table q : ℕ) (mem : Bytes)
    → j ≤ q
    → q < j + n
    → i * 2 ^ 22 + q * 4096 ≤ phy_size
    → read32 (fill_table n i j table mem) (table + q * 4) ≡ i * 2 ^ 22 + q * 4096 + kernel_flags
unfolding fill_table
fill_table-entry zero i j table q mem lo hi small = absurd (omega arith)
fill_table-entry (suc n) i j table q mem lo hi small =
    let mem' = write32 mem (table + j * 4) (i * 2 ^ 22 + j * 4096 + kernel_flags) in
    let go_on : ltb phy_size (i * 2 ^ 22 + j * 4096) ≡ false = ground arith in
    elim (ℕ_discrete j q) [
      | yes e ↦ rw go_on (
          fill_table-outside n i (j + 1) table (table + q * 4) mem' (inl (omega (arith, e)))
          ∙ ap (λ (x : ℕ). read32 mem' (table + x * 4)) (sym e)
          ∙ read32-write32_self mem (table + j * 4) (i * 2 ^ 22 + j * 4096 + kernel_flags)
              (omega arith)
          ∙ omega (arith, e))
      | no ne ↦
          rw go_on (fill_table-entry n i (j + 1) table q mem' (omega arith) (omega arith) small)
    ]

-- The two arrays lie apart from each other.
module _ (pagedir pagetables : ℕ)
    (apart : (pagedir + 4096 ≤ pagetables) ⊎ (pagetables + 256 * 4096 ≤ pagedir)) where
  abbrev pub pde : ℕ → ℕ
  pde i = vir_2_phy pagetables + i * 4096 + kernel_flags

  fill_dir-outside :
      (n i p : ℕ) (mem : Bytes)
      → (p + 4 ≤ pagedir + (768 + i) * 4) ⊎ (pagedir + (768 + i + n) * 4 ≤ p)
      → (p + 4 ≤ pagetables + i * 4096) ⊎ (pagetables + (i + n) * 4096 ≤ p)
      → read32 (fill_dir n i pagedir pagetables mem) p ≡ read32 mem p
  unfolding fill_dir
  fill_dir-outside zero i p mem out off = refl
  fill_dir-outside (suc n) i p mem out off =
      let linked = write32 mem (pagedir + (768 + i) * 4) (pde i) in
      fill_dir-outside n (i + 1) p (fill_table 1024 i 0 (pagetables + i * 4096) linked)
        (omega arith) (omega arith)
      ∙ fill_table-outside 1024 i 0 (pagetables + i * 4096) p linked (omega arith)
      ∙ read32-write32_ne mem (pagedir + (768 + i) * 4) (pde i) p (omega arith)

  pub fill_dir-pde :
      (n i q : ℕ) (mem : Bytes)
      → i + n ≤ 256
      → i ≤ q
      → q < i + n
      → pde q < 2 ^ 32
      → read32 (fill_dir n i pagedir pagetables mem) (pagedir + (768 + q) * 4) ≡ pde q
  unfolding fill_dir
  fill_dir-pde zero i q mem few lo hi word = absurd (omega arith)
  fill_dir-pde (suc n) i q mem few lo hi word =
      let linked = write32 mem (pagedir + (768 + i) * 4) (pde i) in
      let filled = fill_table 1024 i 0 (pagetables + i * 4096) linked in
      elim (ℕ_discrete i q) [
        | no ne ↦ fill_dir-pde n (i + 1) q filled (omega arith) (omega arith) (omega arith) word
        | yes e ↦
            fill_dir-outside n (i + 1) (pagedir + (768 + q) * 4) filled (inl (omega (arith, e)))
              (omega (arith, e, apart))
            ∙ fill_table-outside 1024 i 0 (pagetables + i * 4096) (pagedir + (768 + q) * 4) linked
                (omega (arith, e, apart))
            ∙ ap (λ (x : ℕ). read32 linked (pagedir + (768 + x) * 4)) (sym e)
            ∙ read32-write32_self mem (pagedir + (768 + i) * 4) (pde i)
                (subst (λ (x : ℕ). pde x < 2 ^ 32) (sym e) word)
            ∙ ap pde e
      ]

  pub fill_dir-pte :
      (n i q r : ℕ) (mem : Bytes)
      → i ≤ q
      → q < i + n
      → r < 1024
      → q * 2 ^ 22 + r * 4096 ≤ phy_size
      → i + n ≤ 256
      → read32 (fill_dir n i pagedir pagetables mem) (pagetables + q * 4096 + r * 4)
        ≡ q * 2 ^ 22 + r * 4096 + kernel_flags
  unfolding fill_dir
  fill_dir-pte zero i q r mem lo hi lt small few = absurd (omega arith)
  fill_dir-pte (suc n) i q r mem lo hi lt small few =
      let linked = write32 mem (pagedir + (768 + i) * 4) (pde i) in
      let filled = fill_table 1024 i 0 (pagetables + i * 4096) linked in
      elim (ℕ_discrete i q) [
        | no ne ↦
            fill_dir-pte n (i + 1) q r filled (omega arith) (omega arith) lt small (omega arith)
        | yes e ↦
            fill_dir-outside n (i + 1) (pagetables + q * 4096 + r * 4) filled
              (omega (arith, e, apart)) (omega (arith, e))
            ∙ ap
                (λ (x : ℕ).
                  read32 (fill_table 1024 x 0 (pagetables + x * 4096) linked)
                    (pagetables + q * 4096 + r * 4))
                e
            ∙ fill_table-entry 1024 q 0 (pagetables + q * 4096) r linked (omega arith) (omega arith)
                small
      ]

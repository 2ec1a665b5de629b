-- ===== src/Memory/Entry/Walk.antt =====
-- Where the page tables of `entry` lead.
use nbos.Base.{ℕ, ◌+◌, ◌*◌, ◌/◌, ◌%◌, ◌^◌, ◌≤◌, ◌<◌, ◌≡◌, ◌⊎◌, refl, ap, ◌∙◌, arith}
use nbos.Base.Bytes.{Bytes, read32, read32-write32_self, read32-write32_ne}
use nbos.Memory.Pages.{vir_2_phy, phy_2_vir, get_phy_addr, item_address}
use nbos.Memory.Entry.{phy_size, kernel_flags, fill_dir, entry_tables}
use nbos.Memory.Entry.Fill.{pde, fill_dir-pde, fill_dir-pte}

-- After `entry`, with the two arrays apart and in the kernel's addresses, the tables at a multiple of 4096.
module _ (pagedir pagetables : ℕ) (mem : Bytes)
    (apart : (pagedir + 4096 ≤ pagetables) ⊎ (pagetables + 256 * 4096 ≤ pagedir))
    (kernel : 0xc000_0000 ≤ pagetables) (word : pagetables + 256 * 4096 < 2 ^ 32)
    (aligned : pagetables % 4096 ≡ 0) where
  abbrev filled : Bytes
  filled = fill_dir 256 0 pagedir pagetables mem

  small_pde : (q : ℕ) → q < 256 → pde pagedir pagetables apart q < 2 ^ 32
  unfolding vir_2_phy
  small_pde q lt = omega arith

  pde_word :
      (q : ℕ)
      → q < 256
      → read32 (entry_tables pagedir pagetables mem) (pagedir + (768 + q) * 4)
        ≡ pde pagedir pagetables apart q
  unfolding entry_tables
  pde_word q lt =
      read32-write32_ne filled pagedir (read32 filled (pagedir + 768 * 4)) (pagedir + (768 + q) * 4)
        (omega arith)
      ∙ fill_dir-pde pagedir pagetables apart 256 0 q mem (omega arith) (omega arith) (omega arith)
          (small_pde q lt)

  first_pde :
      read32 (entry_tables pagedir pagetables mem) (pagedir + 0 * 4)
      ≡ pde pagedir pagetables apart 0
  unfolding entry_tables
  first_pde =
      let same =
        fill_dir-pde pagedir pagetables apart 256 0 0 mem (omega arith) (omega arith) (omega arith)
          (small_pde 0 (omega arith)) in
      ap (read32 (entry_tables pagedir pagetables mem)) (omega arith)
      ∙ read32-write32_self filled pagedir (read32 filled (pagedir + 768 * 4))
          (omega (arith, same, small_pde 0 (omega arith)))
      ∙ ap (read32 filled) (omega arith)
      ∙ same

  pte_word :
      (q r : ℕ)
      → q < 256
      → r < 1024
      → q * 2 ^ 22 + r * 4096 ≤ phy_size
      → read32 (entry_tables pagedir pagetables mem) (pagetables + q * 4096 + r * 4)
        ≡ q * 2 ^ 22 + r * 4096 + kernel_flags
  unfolding entry_tables
  pte_word q r hq hr small =
      read32-write32_ne filled pagedir (read32 filled (pagedir + 768 * 4))
        (pagetables + q * 4096 + r * 4) (omega (arith, apart))
      ∙ fill_dir-pte pagedir pagetables apart 256 0 q r mem (omega arith) (omega arith) hr small
          (omega arith)

  table_of :
      (q : ℕ)
      → q < 256
      → phy_2_vir (item_address (pde pagedir pagetables apart q)) ≡ pagetables + q * 4096
  unfolding item_address phy_2_vir vir_2_phy
  table_of q lt = omega arith

  page_address :
      (x : ℕ)
      → item_address (x / 2 ^ 22 * 2 ^ 22 + x / 4096 % 1024 * 4096 + kernel_flags) ≡ x / 4096 * 4096
  unfolding item_address
  page_address x = omega arith

  -- An address whose entry of the page directory is the one of the table `q`.
  walk :
      (vir x : ℕ)
      → x ≤ phy_size
      → vir / 4096 % 1024 ≡ x / 4096 % 1024
      → read32 (entry_tables pagedir pagetables mem) (pagedir + vir / 2 ^ 22 * 4)
        ≡ pde pagedir pagetables apart (x / 2 ^ 22)
      → get_phy_addr pagedir vir (entry_tables pagedir pagetables mem) ≡ x / 4096 * 4096
  unfolding get_phy_addr
  walk vir x le offset entry =
      rw
        (
          entry,
          table_of (x / 2 ^ 22) (omega arith),
          offset,
          pte_word (x / 2 ^ 22) (x / 4096 % 1024) (omega arith) (omega arith) (omega arith),
        )
        (page_address x)

-- With the page directory and the page tables apart, the tables at a multiple of 4096 in the kernel's
-- addresses, the tables that `entry` fills take the kernel's address of every byte up to the end of
-- the physical memory, and the byte behind it, to the page of this byte; the addresses of the first
-- four megabytes lead to themselves.
pub get_phy_addr-entry_tables :
    (pagedir pagetables x : ℕ) (mem : Bytes)
    → (pagedir + 4096 ≤ pagetables) ⊎ (pagetables + 256 * 4096 ≤ pagedir)
    → 0xc000_0000 ≤ pagetables
    → pagetables + 256 * 4096 < 2 ^ 32
    → pagetables % 4096 ≡ 0
    → x ≤ phy_size
    → (get_phy_addr pagedir (0xc000_0000 + x) (entry_tables pagedir pagetables mem)
        ≡ x / 4096 * 4096)
      × (get_phy_addr pagedir (x % 2 ^ 22) (entry_tables pagedir pagetables mem)
          ≡ x % 2 ^ 22 / 4096 * 4096)
get_phy_addr-entry_tables pagedir pagetables x mem apart kernel word aligned le =
    let high : (0xc000_0000 + x) / 2 ^ 22 ≡ 768 + x / 2 ^ 22 = omega arith in
    let low : x % 2 ^ 22 / 2 ^ 22 ≡ 0 = omega arith in
    (
      walk pagedir pagetables mem apart kernel word aligned (0xc000_0000 + x) x le (omega arith) (
          rw high
            (pde_word pagedir pagetables mem apart kernel word aligned (x / 2 ^ 22) (omega arith))),
      walk pagedir pagetables mem apart kernel word aligned (x % 2 ^ 22) (x % 2 ^ 22) (omega arith)
          refl (rw low (first_pde pagedir pagetables mem apart kernel word aligned)),
    )

-- ===== src/Memory/Entry.antt =====
-- The page directory and the page tables that `entry` of entry.c fills before paging is on. `pagedir` and
-- `pagetables` are the addresses of the two arrays as the kernel sees them later; `entry` reaches the
-- same bytes through their physical addresses.
pub mod Fill
pub mod Walk
use nbos.Base.{
  ℕ, zero, suc, ◌+◌, ◌-◌, ◌*◌, ◌/◌, ◌%◌, ◌^◌, ◌≤◌, ◌<◌, ◌≡◌, ◌⊎◌, inl, inr, refl, sym, ap, ◌∙◌,
  arith, ltb, false, if◌then◌else◌,
}
use mathlib.Core.Path.{subst}
use native.Mathlib.Decide.{ℕ_discrete}
use nbos.Base.Bytes.{Bytes, read32, write32, read32-write32_self, read32-write32_ne}
use nbos.Memory.Pages.{vir_2_phy, phy_2_vir, get_phy_addr, item_address}

abbrev pub phy_size : ℕ
phy_size = 0x200_0000

-- `PAGE_S + PAGE_RW + PAGE_P`
abbrev pub kernel_flags : ℕ
kernel_flags = 3

-- The inner loop for the table `i`, counted from 0, with `n` entries left: it stops behind the memory.
unfoldable pub fill_table : ℕ → ℕ → ℕ → ℕ → Bytes → Bytes
fill_table zero i j table mem = mem
fill_table (suc n) i j table mem =
    let phyaddr_base = i * 2 ^ 22 + j * 4096 in
    let rest =
      fill_table n i (j + 1) table (write32 mem (table + j * 4) (phyaddr_base + kernel_flags)) in
    if ltb phy_size phyaddr_base then mem else rest

-- The outer loop over the entries from 768 on, `i` of which are done.
unfoldable pub fill_dir : ℕ → ℕ → ℕ → ℕ → Bytes → Bytes
fill_dir zero i pagedir pagetables mem = mem
fill_dir (suc n) i pagedir pagetables mem =
    let table = pagetables + i * 4096 in
    let linked =
      write32 mem (pagedir + (768 + i) * 4) (vir_2_phy pagetables + i * 4096 + kernel_flags) in
    fill_dir n (i + 1) pagedir pagetables (fill_table 1024 i 0 table linked)

-- The memory when paging is switched on: the first entry is the one of the first kernel table.
unfoldable pub entry_tables : ℕ → ℕ → Bytes → Bytes
unfolding fill_dir
entry_tables pagedir pagetables mem =
    let filled = fill_dir 256 0 pagedir pagetables mem in
    write32 filled pagedir (read32 filled (pagedir + 768 * 4))

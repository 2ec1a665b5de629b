-- ===== src/Memory/Mapping.antt =====
-- What the lists of free pages and the page tables lead to.
use nbos.Base.{
  ℕ, ◌+◌, ◌*◌, ◌/◌, ◌%◌, ◌^◌, ◌≤◌, ◌<◌, ◌≡◌, ◌⊎◌, inl, inr, refl, arith, if◌then◌else◌, Bool-cases,
}
use nbos.Base.Bytes.{read32-write32_self, read32-write32_ne, Bytes, read32, write32}
use nbos.Memory.Copy.{fill}
use nbos.Memory.Pages.{
  Pages, alloc_page, free_page, page_map, with_table, get_phy_addr, generate_item, item_address,
  present, vir_2_phy, phy_2_vir,
}

item_address-generate_item : (phy p : ℕ) → item_address (generate_item phy p) ≡ phy / 4096 * 4096
unfolding item_address generate_item
item_address-generate_item phy p = omega arith

-- A page table at a kernel address that an entry names, read back.
pub phy_2_vir-entry :
    (table p : ℕ)
    → 0xc000_0000 ≤ table
    → table < 2 ^ 32
    → table % 4096 ≡ 0
    → phy_2_vir (item_address (generate_item (vir_2_phy table) p)) ≡ table
unfolding item_address generate_item vir_2_phy phy_2_vir
phy_2_vir-entry table p lo hi aligned = omega arith

pub item-lt : (phy p : ℕ) → phy < 2 ^ 32 → generate_item phy p < 2 ^ 32
unfolding generate_item
item-lt phy p hi = omega arith

pub generate_item-lt : (table p : ℕ) → generate_item (vir_2_phy table) p < 2 ^ 32
unfolding vir_2_phy
generate_item-lt table p = item-lt (vir_2_phy table) p (omega arith)

-- The table of the entry of `vir`: the one that the entry names, or else the next free page.
abbrev pub table_for : ℕ → ℕ → Pages → ℕ
table_for pagedir vir s =
    if present (read32 s.mem (pagedir + vir / 2 ^ 22 * 4))
    then phy_2_vir (item_address (read32 s.mem (pagedir + vir / 2 ^ 22 * 4)))
    else s.free_list

with_table-table :
    (pagedir vir privilege : ℕ) (s : Pages)
    → 0xc000_0000 ≤ s.free_list
    → s.free_list < 2 ^ 32
    → s.free_list % 4096 ≡ 0
    → phy_2_vir (
        item_address (
          read32
            (with_table (pagedir + vir / 2 ^ 22 * 4) privilege s).mem
            (pagedir + vir / 2 ^ 22 * 4)))
      ≡ table_for pagedir vir s
unfolding with_table alloc_page
with_table-table pagedir vir privilege s lo hi aligned =
    elim (Bool-cases (present (read32 s.mem (pagedir + vir / 2 ^ 22 * 4)))) [
      | inl there ↦ rw there
      | inr missing ↦
          rw
            (
              missing,
              read32-write32_self (fill s.mem s.free_list 4096 0) (pagedir + vir / 2 ^ 22 * 4)
                  (generate_item (vir_2_phy s.free_list) privilege)
                  (generate_item-lt s.free_list privilege),
            )
            (phy_2_vir-entry s.free_list privilege lo hi aligned)
    ]

write_item :
    (mem : Bytes) (entry table index phy privilege : ℕ)
    → phy_2_vir (item_address (read32 mem entry)) ≡ table
    → (table + 4096 ≤ entry) ⊎ (entry + 4 ≤ table)
    → index < 1024
    → phy < 2 ^ 32
    → item_address (
        read32 (write32 mem (table + index * 4) (generate_item phy privilege)) (
          phy_2_vir (
            item_address
              (read32 (write32 mem (table + index * 4) (generate_item phy privilege)) entry))
          + index * 4))
      ≡ phy / 4096 * 4096
write_item mem entry table index phy privilege here apart lt hi = rw (
  read32-write32_ne mem (table + index * 4) (generate_item phy privilege) entry (omega arith),
  here,
  read32-write32_self mem (table + index * 4) (generate_item phy privilege)
      (item-lt phy privilege hi),
  item_address-generate_item phy privilege,
)

-- After `page_map` of a page at a 32-bit address, `get_phy_addr` of the same page directory finds
-- that page at the virtual address, whether the table of its entry was there or had to be taken
-- from the free pages, if the next free page is an aligned page of the kernel's address space and
-- the table does not overlap the entry.
pub get_phy_addr-page_map :
    (pagedir vir phy privilege : ℕ) (s : Pages)
    → 0xc000_0000 ≤ s.free_list
    → s.free_list < 2 ^ 32
    → s.free_list % 4096 ≡ 0
    → (table_for pagedir vir s + 4096 ≤ pagedir + vir / 2 ^ 22 * 4)
      ⊎ (pagedir + vir / 2 ^ 22 * 4 + 4 ≤ table_for pagedir vir s)
    → phy < 2 ^ 32
    → get_phy_addr pagedir vir (page_map pagedir vir phy privilege s).mem ≡ phy / 4096 * 4096
unfolding get_phy_addr page_map
get_phy_addr-page_map pagedir vir phy privilege s lo hi aligned apart small =
    let e = with_table-table pagedir vir privilege s lo hi aligned in
    rw e (
      write_item (with_table (pagedir + vir / 2 ^ 22 * 4) privilege s).mem
        (pagedir + vir / 2 ^ 22 * 4) (table_for pagedir vir s) (vir / 4096 % 1024) phy privilege e
        apart (omega arith) small)

-- A page that is given back is the next one handed out, and then the list of free pages starts as
-- before, at a 32-bit address.
pub alloc_page-free_page :
    (page : ℕ) (s : Pages)
    → s.free_list < 2 ^ 32
    → ((alloc_page (free_page page s)).0 ≡ page)
      × ((alloc_page (free_page page s)).1.free_list ≡ s.free_list)
unfolding alloc_page free_page
alloc_page-free_page page s hi = (refl, read32-write32_self s.mem page s.free_list hi)

-- ===== src/Memory/Pages.antt =====
-- The free pages and the page tables of memory.c. The memory is what the kernel sees from its virtual
-- addresses on; a physical address is `KERNEL_VIR_BASE` less.
use nbos.Base.{
  List, [], ◌∷◌, ℕ, zero, suc, ◌+◌, ◌-◌, ◌*◌, ◌/◌, ◌%◌, ◌^◌, Bool, Option, none, some, ◌==◌, ltb,
  if◌then◌else◌,
}
use nbos.Base.Bytes.{Bytes, read32, write32}
use nbos.Memory.Copy.{fill}

abbrev pub page_size : ℕ
page_size = 4096

abbrev pub kernel_vir_base : ℕ
kernel_vir_base = 0xc000_0000

-- `VIR_2_PHY` and `PHY_2_VIR`, on 32 bits.
unfoldable pub vir_2_phy : ℕ → ℕ
vir_2_phy x = (x + 2 ^ 32 - kernel_vir_base) % 2 ^ 32

unfoldable pub phy_2_vir : ℕ → ℕ
phy_2_vir x = (x + kernel_vir_base) % 2 ^ 32

-- `ALIGN_UP`
unfoldable pub align_up : ℕ → ℕ
align_up x = (x + 0xfff) % 2 ^ 32 / 4096 * 4096

-- The memory and `free_list`.
pub record Pages : Type 0 where
  pub mem : Bytes
  pub free_list : ℕ

-- The loop of `init_memory`, with `n` pages left from `free_page` on, each linked from `pre_page`.
unfoldable pub link_pages : ℕ → ℕ → ℕ → Bytes → Bytes
link_pages zero free_page pre_page mem = mem
link_pages (suc n) free_page pre_page mem =
    link_pages n (free_page + page_size) free_page (write32 mem pre_page free_page)

-- What `init_memory` reads of a `struct program_header`.
pub record ProgramHeader : Type 0 where
  pub p_type : ℕ
  pub p_vaddr : ℕ
  pub p_memsize : ℕ

-- The end of the last segment to load; the headers come in the order of the loop, the last one first.
-- `none` leaves `end` without a value.
unfoldable pub kernel_end : List ProgramHeader → Option ℕ
kernel_end [] = none
kernel_end (ph ∷ phs) =
    let rest = kernel_end phs in
    if ph.p_type == 1 then some ((ph.p_vaddr + ph.p_memsize) % 2 ^ 32) else rest

-- The pages from `end` on, up to the end of the physical memory of 0x2000000 bytes.
unfoldable pub free_from : ℕ → Pages → Pages
unfolding align_up link_pages
free_from end s =
    let first = align_up end in
    let linked =
      link_pages ((0xc200_0000 - first - 1) / page_size) (first + page_size) first s.mem in
    if ltb first 0xc200_0000 then record { mem = linked; free_list = first } else s

unfoldable pub init_memory : List ProgramHeader → Pages → Option Pages
init_memory phs s = elim (kernel_end phs) [ none ↦ none | some end ↦ some (free_from end s) ]

unfoldable pub alloc_page : Pages → ℕ × Pages
alloc_page s = (s.free_list, record s { free_list = read32 s.mem s.free_list })

unfoldable pub free_page : ℕ → Pages → Pages
free_page page s = record { mem = write32 s.mem page s.free_list; free_list = page }

-- `generate_page_dir_item` and `generate_page_table_item`: every bit field is set, most of them to 0,
-- the type and the present bit to 1.
unfoldable pub generate_item : ℕ → ℕ → ℕ
generate_item phy_ptr page_privilege = phy_ptr / 4096 * 4096 + page_privilege % 2 * 4 + 2 + 1

-- The present bit of an entry, and the page that its address field names.
unfoldable pub present : ℕ → Bool
present item = item % 2 == 1

unfoldable pub item_address : ℕ → ℕ
item_address item = item / 4096 * 4096

-- `page_map`'s first part: a page table for the entry, where there is none.
unfoldable pub with_table : ℕ → ℕ → Pages → Pages
unfolding generate_item present
with_table entry page_privilege s =
    let (table, s') = alloc_page s in
    let cleared = fill s'.mem table page_size 0 in
    if present (read32 s.mem entry)
    then s
    else record s' { mem = write32 cleared entry (generate_item (vir_2_phy table) page_privilege) }

-- `page_map` in the page directory at `pagedir`.
unfoldable pub page_map : ℕ → ℕ → ℕ → ℕ → Pages → Pages
unfolding item_address
page_map pagedir vir_addr phy_addr page_privilege s =
    let entry = pagedir + vir_addr / 2 ^ 22 * 4 in
    let s' = with_table entry page_privilege s in
    let table = phy_2_vir (item_address (read32 s'.mem entry)) in
    record s' {
      mem =
          write32 s'.mem (table + vir_addr / 4096 % 1024 * 4)
            (generate_item phy_addr page_privilege);
    }

-- `get_phy_addr` in the page directory at `pagedir`; the entries' present bits are not looked at.
unfoldable pub get_phy_addr : ℕ → ℕ → Bytes → ℕ
get_phy_addr pagedir vir_addr mem =
    let pt = read32 mem (pagedir + vir_addr / 2 ^ 22 * 4) in
    item_address (read32 mem (phy_2_vir (item_address pt) + vir_addr / 4096 % 1024 * 4))

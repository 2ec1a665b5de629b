-- ===== src/Memory/Tests.antt =====
-- The theorems on pages at a concrete memory.
use native.Mathlib.Omega.{arith}
use mathlib.Core.Path.{◌≡◌, refl}
use nbos.Base.{ℕ, ◌+◌, ◌%◌, ◌^◌, ◌*◌, ◌/◌, some, List, [], ◌∷◌}
use nbos.Memory.Entry.{entry_tables}
use nbos.Memory.Entry.Walk.{get_phy_addr-entry_tables}
use nbos.Memory.Pages.{Pages, alloc_page, get_phy_addr}
use nbos.Memory.Pages.{ProgramHeader, kernel_end, align_up, init_memory}
use nbos.Memory.FreePages.{alloc_pages, init_memory-alloc_pages}

abbrev pages : Pages
pages = record { mem = λ k. 0; free_list = 0xc014_3000 }

abbrev headers : List ProgramHeader
headers = record { p_type = 1; p_vaddr = 0xc010_0000; p_memsize = 0x1_2345 } ∷ []

abbrev kernel_ends : ℕ
kernel_ends = 0xc011_2345

headers-end : kernel_end headers ≡ some kernel_ends
unfolding kernel_end
headers-end = refl

first_page : align_up kernel_ends ≡ 0xc011_3000
unfolding align_up
first_page = refl

init_memory-alloc_pages_example :
    (s' : Pages) × ((init_memory headers pages ≡ some s')
      × ((alloc_page (alloc_pages 3 s')).0 ≡ align_up kernel_ends + 3 * 4096))
init_memory-alloc_pages_example =
    init_memory-alloc_pages headers kernel_ends 3 pages headers-end (omega (arith, first_page))

get_phy_addr-entry_tables_example :
    (get_phy_addr 0xc012_0000
        (0xc000_0000 + 0x112_3456)
        (entry_tables 0xc012_0000 0xc013_0000 (λ k. 0))
      ≡ 0x112_3456 / 4096 * 4096)
    × (get_phy_addr 0xc012_0000
          (0x112_3456 % 2 ^ 22)
          (entry_tables 0xc012_0000 0xc013_0000 (λ k. 0))
        ≡ 0x112_3456 % 2 ^ 22 / 4096 * 4096)
get_phy_addr-entry_tables_example =
    get_phy_addr-entry_tables 0xc012_0000 0xc013_0000 0x112_3456 (λ k. 0) (omega arith)
      (omega arith) (omega arith) refl (omega arith)

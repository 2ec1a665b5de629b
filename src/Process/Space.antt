-- ===== src/Process/Space.antt =====
-- `copy_process_mem` and `free_process_user_mem` of syscall.c: the user part of a page directory, its page
-- tables and pages, copied for a new process or handed back.
pub mod Copy
pub mod Supply
pub mod Tables
pub mod Linked
pub mod Release
use nbos.Base.{ℕ, zero, suc, ◌+◌, ◌*◌, if◌then◌else◌}
use nbos.Base.Bytes.{Bytes, read32, write32}
use nbos.Memory.Copy.{fill, move_within}
use nbos.Memory.Pages.{
  Pages, page_size, present, item_address, generate_item, vir_2_phy, phy_2_vir, alloc_page,
  free_page,
}

-- The entries of a page directory for user addresses.
abbrev pub user_entries : ℕ
user_entries = 0x300

abbrev pub table_entries : ℕ
table_entries = 1024

-- The kernel's address of the page or table that the entry at an address names.
abbrev pub page_of : ℕ → Bytes → ℕ
page_of entry mem = phy_2_vir (item_address (read32 mem entry))

-- The body of the inner loop: the entry gets a page of its own, with the old page's content.
unfoldable pub copy_page : ℕ → Pages → Pages
copy_page entry s =
    let (new_page, s') = alloc_page s in
    let copied = move_within s'.mem (page_of entry s'.mem) new_page page_size in
    if present (read32 s.mem entry)
    then record s' { mem = write32 copied entry (generate_item (vir_2_phy new_page) 1) }
    else s

-- The inner loop, with `n` entries left.
unfoldable pub copy_pages : ℕ → ℕ → Pages → Pages
copy_pages zero entry s = s
copy_pages (suc n) entry s = copy_pages n (entry + 4) (copy_page entry s)

-- The body of the outer loop.
unfoldable pub copy_table : ℕ → Pages → Pages
copy_table entry s =
    let (new_table, s') = alloc_page s in
    let cleared = fill s'.mem new_table page_size 0 in
    let copied = move_within cleared (page_of entry cleared) new_table page_size in
    let linked = record s' { mem = write32 copied entry (generate_item (vir_2_phy new_table) 1) } in
    if present (read32 s.mem entry) then copy_pages table_entries new_table linked else s

unfoldable pub copy_tables : ℕ → ℕ → Pages → Pages
copy_tables zero entry s = s
copy_tables (suc n) entry s = copy_tables n (entry + 4) (copy_table entry s)

-- `copy_process_mem`: the new page directory, and the memory.
unfoldable pub copy_process_mem : ℕ → Pages → ℕ × Pages
unfolding copy_tables
copy_process_mem pagedir s =
    let (new_dir, s') = alloc_page s in
    let cleared = fill s'.mem new_dir page_size 0 in
    (
      new_dir,
      copy_tables user_entries new_dir
          (record s' { mem = move_within cleared pagedir new_dir page_size }),
    )

-- The body of the inner loop of `free_process_user_mem`.
unfoldable pub release_page : ℕ → Pages → Pages
release_page entry s = if present (read32 s.mem entry) then free_page (page_of entry s.mem) s else s

unfoldable pub release_pages : ℕ → ℕ → Pages → Pages
release_pages zero entry s = s
release_pages (suc n) entry s = release_pages n (entry + 4) (release_page entry s)

-- The body of the outer loop: the address of the table is taken before its pages are handed back.
unfoldable pub release_table : ℕ → Pages → Pages
release_table entry s =
    let table = page_of entry s.mem in
    let released = free_page table (release_pages table_entries table s) in
    if present (read32 s.mem entry) then released else s

unfoldable pub release_tables : ℕ → ℕ → Pages → Pages
release_tables zero entry s = s
release_tables (suc n) entry s = release_tables n (entry + 4) (release_table entry s)

-- `free_process_user_mem` for the page directory of the current process.
unfoldable pub free_process_user_mem : ℕ → Pages → Pages
unfolding release_tables
free_process_user_mem pagedir s = release_tables user_entries pagedir s

-- ===== src/Process/User.antt =====
-- `switch_to_user` of main.c: the first page table opened to the user, a stack, and the frame with which the
-- processor returns to user mode.
use nbos.Base.{ℕ, zero, suc, ◌+◌, ◌-◌, ◌*◌, ◌/◌, ◌%◌, ◌^◌}
use nbos.Base.Bytes.{Bytes, read32, write32}
use nbos.Memory.Copy.{move_within}
use nbos.Memory.Pages.{Pages, page_size, generate_item, vir_2_phy, alloc_page, page_map}
use nbos.Process.Space.{page_of, table_entries}
use nbos.Process.Execve.{user_stack_start}

-- `struct iret_param`, without its padding.
pub record IretParam : Type 0 where
  pub eip : ℕ
  pub cs : ℕ
  pub eflags : ℕ
  pub esp : ℕ
  pub ss : ℕ

abbrev pub ucode_selector : ℕ
ucode_selector = 0x1b

abbrev pub udata_selector : ℕ
udata_selector = 0x23

-- The bit field `privilege` set in `n` entries from `entry` on.
unfoldable pub open_to_user : ℕ → ℕ → Bytes → Bytes
open_to_user zero entry mem = mem
open_to_user (suc n) entry mem =
    let item = read32 mem entry in
    open_to_user n (entry + 4) (write32 mem entry (item / 8 * 8 + 4 + item % 4))

-- Steps 1 to 4: the copy of the first page table in the first entry of the page directory.
unfoldable pub user_table : ℕ → Pages → Pages
unfolding open_to_user
user_table pagedir s =
    let (table, s') = alloc_page s in
    let copied = move_within s'.mem (page_of pagedir s'.mem) table page_size in
    let opened = open_to_user table_entries table copied in
    record s' { mem = write32 opened pagedir (generate_item (vir_2_phy table) 1) }

-- `switch_to_user` for the return address and the flags that it finds: the frame, and the memory.
unfoldable pub switch_to_user : ℕ → ℕ → ℕ → Pages → IretParam × Pages
unfolding user_table
switch_to_user pagedir iret_addr eflags s =
    let (page, s') = alloc_page (user_table pagedir s) in
    (
      record {
        eip = (iret_addr + 2 ^ 32 - 0xc000_0000) % 2 ^ 32;
        cs = ucode_selector;
        eflags = eflags;
        esp = user_stack_start;
        ss = udata_selector;
      },
      page_map pagedir (user_stack_start / 4096 * 4096) (vir_2_phy page) 1 s',
    )

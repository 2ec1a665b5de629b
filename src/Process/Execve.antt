-- ===== src/Process/Execve.antt =====
-- `sys_execve` of syscall.c. `walk` is the processor's way from a user address to the kernel's.
use nbos.Base.{ℕ, ◌*◌, ◌/◌, Option, none, some, not, ◌==◌, get_elem?, if◌then◌else◌}
use nbos.Base.Bytes.{Bytes}
use nbos.Memory.Pages.{Pages, alloc_page, page_map, vir_2_phy}
use nbos.File.Disk.{Disk}
use nbos.File.Layout.{Inode}
use nbos.File.Format.{regular_file}
use nbos.File.Directory.{seek_file_inode}
use nbos.Process.{Kernel, IntrContext}
use nbos.Process.Space.{free_process_user_mem}
use nbos.Process.Load.{load_process}

abbrev pub user_stack_start : ℕ
user_stack_start = 0xbfff_fffc

-- The result -1, with the memory; the registers with which the program starts; or no defined result.
pub data ExecResult : Type 0 where
  refused : Pages → ExecResult
  started : IntrContext → Pages → ExecResult
  unclear : ExecResult

-- Step 4: a page for the stack, and the registers.
unfoldable pub with_stack : IntrContext → ℕ → ℕ → Pages → ExecResult
with_stack ptr pagedir entry s =
    let (page, s') = alloc_page s in
    started (record ptr { esp = user_stack_start; eip = entry })
      (page_map pagedir (user_stack_start / 4096 * 4096) (vir_2_phy page) 1 s')

abbrev pub after_load : IntrContext → ℕ → Option (Option ℕ × Pages) → ExecResult
after_load ptr pagedir none = unclear
after_load ptr pagedir (some (none, s)) = refused s
after_load ptr pagedir (some (some entry, s)) = with_stack ptr pagedir entry s

-- From step 2 on: the memory is released before it is known whether the file is a program.
unfoldable pub replace_program :
    (ℕ → Bytes → ℕ → ℕ) → Disk → IntrContext → ℕ → Inode → Pages → ExecResult
replace_program walk d ptr pagedir i s =
    after_load ptr pagedir (load_process walk d pagedir i (free_process_user_mem pagedir s))

abbrev pub exec_file :
    (ℕ → Bytes → ℕ → ℕ) → Disk → IntrContext → ℕ → Pages → Option Inode → ExecResult
exec_file walk d ptr pagedir s none = unclear
exec_file walk d ptr pagedir s (some i) =
    let replaced = replace_program walk d ptr pagedir i s in
    if not (i.mode == regular_file) then refused s else replaced

-- `sys_execve` for the path at the address in `ebx`; `behind` is what the stack held.
unfoldable pub sys_execve :
    (ℕ → Bytes → ℕ → ℕ) → Bytes → Disk → IntrContext → Kernel → Pages → ExecResult
sys_execve walk behind d ptr k s = elim (get_elem? k.pcblist k.current) [
  | none ↦ unclear
  | some p ↦
      let seen = λ (a : ℕ). s.mem (walk p.pagedir s.mem a) in
      let executed = exec_file walk d ptr p.pagedir s (seek_file_inode behind d seen ptr.ebx) in
      if p.pid == 0 then refused s else executed
]

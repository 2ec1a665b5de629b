-- ===== src/Process/Exit.antt =====
-- `getPCB` of process.c and `sys_exit` of syscall.c.
pub mod Idle
use nbos.Base.{ℕ, zero, suc, ◌+◌, Option, none, some, List, [], ◌∷◌, ◌==◌, get_elem?, if◌then◌else◌}
use nbos.File.Content.{OpenFile}
use nbos.File.Table.{del_file, closed_fd}
use nbos.Memory.Pages.{Pages, free_page}
use nbos.Process.{Fd, Pcb, Kernel, RunState, is_runnable, first_index, update, current_pid}
use nbos.Process.Sched.{Effect, enter, with_state}

-- `getPCB`: the last process with the pid, since the loop goes on. Where there is none, the pointer
-- has no value.
unfoldable pub get_pcb : ℕ → ℕ → Option ℕ → List Pcb → Option ℕ
get_pcb pid i found [] = found
get_pcb pid i found (p ∷ ps) = get_pcb pid (i + 1) (if p.pid == pid then some i else found) ps

-- The loop that closes a process's open files.
unfoldable pub close_fds : List Fd → List OpenFile → List Fd × List OpenFile
close_fds [] files = ([], files)
close_fds (f ∷ fds) files =
    let closing = close_fds fds (del_file f.ofptr files) in
    let keeping = close_fds fds files in
    if f.open_flag == 1 then (closed_fd ∷ closing.0, closing.1) else (f ∷ keeping.0, keeping.1)

-- The tables, the open files, the pages, and how the processor goes on.
pub record Exited : Type 0 where
  pub kernel : Kernel
  pub files : List OpenFile
  pub pages : Pages
  pub effects : List Effect

abbrev pub exited_pcb : List Fd → Pcb → Pcb
exited_pcb fds p = with_state RunState.zombie (record p { fdlist = fds })

-- Process `i` gone, and the first runnable process entered, whose state stays as it is. Where none is
-- runnable, the pointer to it has no value.
abbrev pub leave : Kernel → List OpenFile → Pages → ℕ → Pcb → Option Exited
leave k files pages i p =
    let (fds, files') = close_fds p.fdlist files in
    let ps = update i (exited_pcb fds) k.pcblist in
    elim (first_index (λ q. is_runnable q.pstate) 0 ps) [
      | none ↦ none
      | some next ↦ some (record {
        kernel = record k { pcblist = ps; current = next };
        files = files';
        pages = free_page p.pagedir pages;
        effects = enter next ps;
      })
    ]

unfoldable pub sys_exit : Kernel → List OpenFile → Pages → Option Exited
sys_exit k files pages = elim (get_pcb (current_pid k) 0 none k.pcblist) [
  | none ↦ none
  | some i ↦ elim (get_elem? k.pcblist i) [ none ↦ none | some p ↦ leave k files pages i p ]
]

-- ===== src/System.antt =====
-- The kernel as one state, and `interrupt_assign` of interrupt.c with the handlers that it calls, between
-- the entry and the end of interrupt_handler.s.
pub mod Tests
pub mod Tables
pub mod Interrupts
pub mod Reach
pub mod Standard
pub mod Twice
use nbos.Base.{
  ℕ, zero, suc, Bool, true, false, ◌||◌, ◌+◌, ◌-◌, ◌%◌, ◌^◌, Option, none, some, List, [], ◌∷◌,
  ◌==◌, ltb, if◌then◌else◌, get_elem?,
}
use nbos.Base.Bytes.{Bytes}
use nbos.Base.Int.{ℤ, pos, negsuc}
use nbos.File.Disk.{Disk}
use nbos.File.Content.{OpenFile}
use nbos.File.Table.{sys_close}
use nbos.Interrupt.{SysCall, Handler, interrupt_assign}
use nbos.Interrupt.Report.{general_intr_handler, do_page_fault}
use nbos.Interrupt.Setup.{Text}
use nbos.Keyboard.{Keyboard, do_keyboard_handler}
use nbos.Memory.Pages.{Pages}
use nbos.Process.{Kernel, IntrContext}
use nbos.Process.Execve.{ExecResult, sys_execve}
use nbos.Process.Exit.{Exited, sys_exit}
use nbos.Process.Fork.{ForkResult, sys_fork}
use nbos.Process.Load.{put_user}
use nbos.Process.Sched.{Effect, do_timer_handler}
use nbos.Process.Wait.{WaitResult, sys_wait}
use nbos.Screen.{Screen}
use nbos.Syscall.{
  Machine, Outcome, minus_one, from, sys_clear, sys_write, sys_read, sys_open, sys_creat,
}

-- The parts' states. The process blocks and the table of open files are fields of their own; `tables_at`
-- says at which places of the memory the program keeps them.
pub record System : Type 0 where
  pub tables_at : ℕ → Bool
  pub kernel : Kernel
  pub file_list : List OpenFile
  pub disk : Disk
  pub screen : Screen
  pub keyboard : Keyboard
  pub pages : Pages

-- What the source does not fix: the way from a user address to the memory, the bytes that the stack
-- held, the bound within which a text has its 0, the byte of the keyboard controller, the table of
-- names, and what `eax` holds where a function ends without a value.
pub record Env : Type 0 where
  pub walk : ℕ → Bytes → ℕ → ℕ
  pub behind : ℕ → Bytes
  pub bound : ℕ
  pub scancode : ℕ
  pub intr_name : List Text
  pub eax_left : ℕ

-- How an interrupt ends: back in the process, with its registers; in another process, which the effects
-- enter; with the processor halted; in the endless loop of `sys_wait`; without a result, where a lock
-- is taken or what an exception's handler prints has no name; where C gives the code no meaning; or after
-- a write through the memory into the processes' tables, which hold anything then.
pub data Trapped : Type 0 where
  back : IntrContext → System → Trapped
  switched : List Effect → System → Trapped
  halted : System → Trapped
  polling : Trapped
  stuck : Trapped
  undefined : Trapped
  overwriting : Trapped

-- The page directory that the processor uses is the current process's.
abbrev pub current_pagedir : Kernel → ℕ
current_pagedir k = elim (get_elem? k.pcblist k.current) [ none ↦ 0 | some p ↦ p.pagedir ]

-- The byte that the current process sees at an address.
abbrev pub seen : Env → System → Bytes
seen e s a = s.pages.mem (e.walk (current_pagedir s.kernel) s.pages.mem a)

-- The state as the calls on files take it.
abbrev pub machine : Env → System → Machine
machine e s = record {
  kernel = s.kernel;
  file_list = s.file_list;
  disk = s.disk;
  screen = s.screen;
  keyboard = s.keyboard;
  memory = seen e s;
}

abbrev pub with_machine : Machine → System → System
with_machine m s = record s {
  kernel = m.kernel;
  file_list = m.file_list;
  disk = m.disk;
  screen = m.screen;
  keyboard = m.keyboard;
}

-- The end of interrupt_handler.s for the vector 0x80: the result goes to the saved `eax`.
abbrev pub with_result : ℕ → IntrContext → System → Trapped
with_result result ptr s = back (record ptr { eax = result }) s

abbrev pub from_outcome : IntrContext → System → Outcome → Trapped
from_outcome ptr s (Outcome.ret a m) = with_result a ptr (with_machine m s)
from_outcome ptr s Outcome.stuck = stuck
from_outcome ptr s Outcome.undefined = undefined

-- How many bytes `sys_read` puts into the buffer: the line typed, or what was asked for.
abbrev pub filled : IntrContext → ℕ → ℕ
filled ptr result = if ptr.ebx == 0 then (if result == minus_one then 0 else result) else ptr.edx

-- Whether one of the first `n` bytes of a buffer, whose places in the memory are given, is in the tables.
unfoldable pub hits : (ℕ → Bool) → (ℕ → ℕ) → ℕ → Bool
hits tables_at place zero = false
hits tables_at place (suc n) = tables_at (place n) || hits tables_at place n

-- The places to which a buffer of the current process leads.
abbrev pub places : Env → System → ℕ → ℕ → ℕ
places e s buf k = e.walk (current_pagedir s.kernel) s.pages.mem (buf + k)

-- The same for `sys_read`, whose buffer is memory of the process, or whatever else the address that is
-- given leads to: `sys_read` does not check it.
abbrev pub from_read : Env → IntrContext → System → Outcome → Trapped
from_read e ptr s (Outcome.ret a m) =
    if hits s.tables_at (places e s ptr.ecx) (filled ptr a)
    then overwriting
    else with_result a ptr (record (with_machine m s) {
      pages = record s.pages {
        mem =
            put_user e.walk (current_pagedir s.kernel) (from m.memory ptr.ecx) (filled ptr a)
              ptr.ecx s.pages.mem;
      };
    })
from_read e ptr s Outcome.stuck = stuck
from_read e ptr s Outcome.undefined = undefined

-- A word as an `int`.
unfoldable pub int_of : ℕ → ℤ
int_of w = if ltb w (2 ^ 31) then pos w else negsuc (2 ^ 32 - 1 - w)

abbrev pub from_close : IntrContext → System → Option (Kernel × List OpenFile) → Trapped
from_close ptr s none = with_result minus_one ptr s
from_close ptr s (some (k, files)) = with_result 0 ptr (record s { kernel = k; file_list = files })

abbrev pub from_fork : IntrContext → System → ForkResult → Trapped
from_fork ptr s (ForkResult.failed k) = with_result minus_one ptr (record s { kernel = k })
from_fork ptr s ForkResult.fault = undefined
from_fork ptr s (ForkResult.child pid k pages) =
    with_result pid ptr (record s { kernel = k; pages = pages })

abbrev pub from_wait : IntrContext → System → WaitResult → Trapped
from_wait ptr s WaitResult.failed = with_result minus_one ptr s
from_wait ptr s WaitResult.polling = polling
from_wait ptr s (WaitResult.reaped pid k) = with_result pid ptr (record s { kernel = k })

-- `sys_execve` ends without a value where it has loaded the program.
abbrev pub from_execve : Env → IntrContext → System → ExecResult → Trapped
from_execve e ptr s (ExecResult.refused pages) =
    with_result minus_one ptr (record s { pages = pages })
from_execve e ptr s (ExecResult.started ptr' pages) =
    with_result e.eax_left ptr' (record s { pages = pages })
from_execve e ptr s ExecResult.unclear = undefined

abbrev pub from_exit : System → Option Exited → Trapped
from_exit s none = undefined
from_exit s (some x) =
    switched x.effects (record s { kernel = x.kernel; file_list = x.files; pages = x.pages })

-- The functions of `sys_call_table`, each with the arguments that it takes from the saved registers.
unfoldable pub system_call : Env → SysCall → IntrContext → System → Trapped
unfolding int_of
system_call e SysCall.sys_exit ptr s = from_exit s (sys_exit s.kernel s.file_list s.pages)
system_call e SysCall.sys_fork ptr s = from_fork ptr s (sys_fork ptr s.kernel s.pages)
system_call e SysCall.sys_read ptr s = from_read e ptr s (sys_read ptr (machine e s))
system_call e SysCall.sys_write ptr s = from_outcome ptr s (sys_write e.bound ptr (machine e s))
system_call e SysCall.sys_open ptr s =
    from_outcome ptr s (sys_open (e.behind 0) ptr.ebx ptr.ecx (machine e s))
system_call e SysCall.sys_close ptr s =
    from_close ptr s (sys_close (int_of ptr.ebx) s.kernel s.file_list)
system_call e SysCall.sys_wait ptr s = from_wait ptr s (sys_wait s.kernel)
system_call e SysCall.sys_creat ptr s =
    from_outcome ptr s (sys_creat e.behind ptr.ebx ptr.ecx (machine e s))
system_call e SysCall.sys_execve ptr s =
    from_execve e ptr s (sys_execve e.walk (e.behind 0) s.disk ptr s.kernel s.pages)
system_call e SysCall.sys_clear ptr s = from_outcome ptr s (sys_clear (machine e s))

-- `do_timer_handler`, which returns where no process is runnable.
abbrev pub from_timer : IntrContext → System → Kernel × List Effect → Trapped
from_timer ptr s (k, []) = back ptr (record s { kernel = k })
from_timer ptr s (k, effect ∷ effects) = switched (effect ∷ effects) (record s { kernel = k })

abbrev pub from_keyboard : IntrContext → System → Option (Keyboard × Screen) → Trapped
from_keyboard ptr s none = undefined
from_keyboard ptr s (some (k, screen)) = back ptr (record s { keyboard = k; screen = screen })

abbrev pub from_fault : IntrContext → System → Option Screen → Trapped
from_fault ptr s none = stuck
from_fault ptr s (some screen) = back ptr (record s { screen = screen })

abbrev pub from_general : System → Option Screen → Trapped
from_general s none = stuck
from_general s (some screen) = halted (record s { screen = screen })

-- A call of what `interrupt_assign` chooses; an entry of the table that is null is no function.
unfoldable pub handle : Env → Handler → IntrContext → System → Trapped
unfolding system_call
handle e (Handler.sys_call none) ptr s = undefined
handle e (Handler.sys_call (some f)) ptr s = system_call e f ptr s
handle e Handler.timer ptr s = from_timer ptr s (do_timer_handler ptr s.kernel)
handle e Handler.keyboard ptr s =
    from_keyboard ptr s (do_keyboard_handler e.scancode s.keyboard s.screen)
handle e Handler.page_fault ptr s = from_fault ptr s (do_page_fault (e.behind 0) ptr s.screen)
handle e (Handler.general n) ptr s =
    from_general s (general_intr_handler (e.behind 0) e.intr_name ptr s.screen)

-- `interrupt_assign` for the registers saved.
unfoldable pub interrupt : Env → IntrContext → System → Trapped
unfolding handle
interrupt e ptr s = handle e (interrupt_assign ptr.inter_no ptr.eax) ptr s

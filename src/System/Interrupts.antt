-- ===== src/System/Interrupts.antt =====
-- What an interrupt leaves of the processes' tables, whichever handler it reaches.
use nbos.Base.{Bool-cases, inl, inr, Option, none, some, List, [], ◌∷◌, length}
use nbos.File.Content.{OpenFile}
use nbos.Interrupt.{SysCall, Handler, interrupt_assign}
use nbos.Interrupt.Report.{general_intr_handler, do_page_fault}
use nbos.Keyboard.{Keyboard, do_keyboard_handler}
use nbos.Process.{Kernel, IntrContext}
use nbos.Process.Execve.{ExecResult, sys_execve}
use nbos.Process.Exit.{Exited}
use nbos.Process.Fork.{ForkResult}
use nbos.Process.Sched.{Effect}
use nbos.Process.Wait.{WaitResult}
use nbos.Screen.{Screen}
use nbos.Syscall.{Outcome}
use nbos.System.{
  System, Env, Trapped, back, switched, halted, machine, int_of, from_outcome, from_read,
  from_close, from_fork, from_wait, from_execve, from_exit, from_timer, from_keyboard, from_fault,
  from_general, system_call, handle, interrupt, hits, places, filled,
}
use nbos.System.Tables.{Tables}
use nbos.System.Tables.Files.{After, sys_clear-After, sys_read-After}
use nbos.System.Tables.Opens.{
  AfterClose, sys_write-After, sys_open-After, sys_creat-After, sys_close-AfterClose,
}
use nbos.System.Tables.Processes.{AfterFork, AfterWait, sys_fork-AfterFork, sys_wait-AfterWait}
use nbos.System.Tables.Switches.{AfterExit, sys_exit-AfterExit, do_timer_handler-Tables}

-- The descriptors of all processes lead into the table of open files.
abbrev pub InOrder : System → Type 0
InOrder s = Tables (length s.file_list) s.kernel

abbrev pub AfterTrap : Trapped → Type 0
AfterTrap (back ptr s) = InOrder s
AfterTrap (switched effects s) = InOrder s
AfterTrap (halted s) = InOrder s
AfterTrap _ = Unit

module _ (e : Env) (ptr : IntrContext) (s : System) (h : InOrder s) where
  outcome : (o : Outcome) → After o → AfterTrap (from_outcome ptr s o)
  outcome (Outcome.ret a m) good = good
  outcome Outcome.stuck good = tt
  outcome Outcome.undefined good = tt

  read : (o : Outcome) → After o → AfterTrap (from_read e ptr s o)
  read (Outcome.ret a m) good =
      elim (Bool-cases (hits s.tables_at (places e s ptr.ecx) (filled ptr a))) [
        | inl into ↦ rw into tt
        | inr beside ↦ rw beside good
      ]
  read Outcome.stuck good = tt
  read Outcome.undefined good = tt

  close : (o : Option (Kernel × List OpenFile)) → AfterClose o → AfterTrap (from_close ptr s o)
  close none good = h
  close (some (k, files)) good = good

  fork : (r : ForkResult) → AfterFork (length s.file_list) r → AfterTrap (from_fork ptr s r)
  fork (ForkResult.failed k) good = good
  fork ForkResult.fault good = tt
  fork (ForkResult.child pid k pages) good = good

  wait : (r : WaitResult) → AfterWait (length s.file_list) r → AfterTrap (from_wait ptr s r)
  wait WaitResult.failed good = h
  wait WaitResult.polling good = tt
  wait (WaitResult.reaped pid k) good = good

  execve : (r : ExecResult) → AfterTrap (from_execve e ptr s r)
  execve (ExecResult.refused pages) = h
  execve (ExecResult.started ptr' pages) = h
  execve ExecResult.unclear = tt

  exit : (r : Option Exited) → AfterExit r → AfterTrap (from_exit s r)
  exit none good = tt
  exit (some x) good = good

  timer :
      (r : Kernel × List Effect) → Tables (length s.file_list) r.0 → AfterTrap (from_timer ptr s r)
  timer (k, []) good = good
  timer (k, effect ∷ effects) good = good

  keyboard : (r : Option (Keyboard × Screen)) → AfterTrap (from_keyboard ptr s r)
  keyboard none = tt
  keyboard (some (k, screen)) = h

  fault : (r : Option Screen) → AfterTrap (from_fault ptr s r)
  fault none = tt
  fault (some screen) = h

  general : (r : Option Screen) → AfterTrap (from_general s r)
  general none = tt
  general (some screen) = h

  called : (f : SysCall) → AfterTrap (system_call e f ptr s)
  unfolding system_call
  called SysCall.sys_exit = exit _ (sys_exit-AfterExit s.kernel s.file_list s.pages h)
  called SysCall.sys_fork = fork _ (sys_fork-AfterFork (length s.file_list) ptr s.kernel s.pages h)
  called SysCall.sys_read = read _ (sys_read-After (machine e s) h ptr)
  called SysCall.sys_write = outcome _ (sys_write-After (machine e s) h e.bound ptr)
  called SysCall.sys_open = outcome _ (sys_open-After (machine e s) h (e.behind 0) ptr.ebx ptr.ecx)
  called SysCall.sys_close = close _ (sys_close-AfterClose (int_of ptr.ebx) s.kernel s.file_list h)
  called SysCall.sys_wait = wait _ (sys_wait-AfterWait (length s.file_list) s.kernel h)
  called SysCall.sys_creat = outcome _ (sys_creat-After e.behind ptr.ebx ptr.ecx (machine e s) h)
  called SysCall.sys_execve = execve (sys_execve e.walk (e.behind 0) s.disk ptr s.kernel s.pages)
  called SysCall.sys_clear = outcome _ (sys_clear-After (machine e s) h)

  chosen : (f : Handler) → AfterTrap (handle e f ptr s)
  unfolding handle
  chosen (Handler.sys_call none) = tt
  chosen (Handler.sys_call (some f)) = called f
  chosen Handler.timer = timer _ (do_timer_handler-Tables (length s.file_list) ptr s.kernel h)
  chosen Handler.keyboard = keyboard (do_keyboard_handler e.scancode s.keyboard s.screen)
  chosen Handler.page_fault = fault (do_page_fault (e.behind 0) ptr s.screen)
  chosen (Handler.general n) = general (general_intr_handler (e.behind 0) e.intr_name ptr s.screen)

  -- Whatever interrupt comes, with whatever registers, the descriptors of all processes lead into the
  -- table of open files after it, if they did before.
  pub interrupt-InOrder : AfterTrap (interrupt e ptr s)
  unfolding interrupt
  interrupt-InOrder = chosen (interrupt_assign ptr.inter_no ptr.eax)

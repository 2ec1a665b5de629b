-- ===== src/User/Shell/Reading.antt =====
-- What becomes of the shell in the states that the kernel reaches.
use nbos.Base.{◌≡◌, Bool, true, false, some}
use nbos.Process.{IntrContext}
use nbos.Screen.{Screen}
use nbos.System.{System, Env}
use nbos.System.Reach.{Reach, Untouched, Beside, Kept, Step}
use nbos.User.Shell.{ShellPc, ShellData, Running, shell_step}

-- The shell among the other programs: it starts in a state that the kernel reaches, and between its calls
-- come interrupts and steps of other processes, in any order.
pub data Life : ShellPc → System → Type 0 where
  born : {s : System} → Reach s → Life ShellPc.clearing s
  other : {pc : ShellPc} {s t : System} → Life pc s → Step s t → Life pc t
  call :
      {pc : ShellPc} {s : System} (e : Env) (d : ShellData) (ptr : IntrContext) (r : Running)
      → Life pc s
      → shell_step e d (record { pc = pc; ptr = ptr; state = s }) ≡ some r
      → Life r.pc r.state

-- A life in which no step writes through the memory into the processes' tables.
abbrev pub Clean : {pc : ShellPc} {s : System} → Life pc s → Type 0
Clean (born r) = Untouched r
Clean (other l st) = Clean l × Kept st
Clean (call {pc} {s} e d ptr r l run) = Clean l × Beside s r.state

-- The places of the text before the shell has read a line.
abbrev pub before_line : ShellPc → Bool
before_line ShellPc.clearing = true
before_line ShellPc.greeting = true
before_line ShellPc.prompting = true
before_line ShellPc.reading = true
before_line _ = false

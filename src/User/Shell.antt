-- ===== src/User/Shell.antt =====
-- shell.c: the shell as a machine that goes from one system call to the next, and what becomes of it in the
-- states that the kernel reaches.
pub mod Reading
use nbos.Base.{
  ℕ, zero, suc, ◌+◌, ◌^◌, ◌<◌, ◌≡◌, refl, ap, ◌∙◌, arith, Bool, ◌&&◌, Option, none, some, [], ◌∷◌,
  ltb, ◌==◌, get_or, if◌then◌else◌,
}
use nbos.Base.Bytes.{Bytes}
use nbos.Memory.Copy.{put}
use nbos.Process.{IntrContext}
use nbos.Screen.{Screen, clear_screen}
use nbos.Syscall.{minus_one, sys_clear}
use nbos.System.{System, Env, Trapped, back, machine, interrupt}
use nbos.System.Reach.{Reach, next, returns}
use nbos.System.Standard.{sys_read-standard}
use nbos.User.{write, clear_my_screen, read, fork, execve, wait, stdin_fileno, stdout_fileno}

-- `getPath`: "/mypro", a line feed and no 0; the result is the `int` 0.
unfoldable pub get_path : ℕ → Bytes → ℕ × Bytes
get_path path m = (
  0,
  put
      (put
        (put (put (put (put (put m path 47) (path + 1) 109) (path + 2) 121) (path + 3) 112)
          (path + 4) 114)
        (path + 5) 111)
      (path + 6) 10,
)

-- The addresses of the texts and the variables of `shell_main`; `statloc` has no value in the source.
pub record ShellData : Type 0 where
  pub shell_text : ℕ
  pub prompt_text : ℕ
  pub not_found_text : ℕ
  pub command : ℕ
  pub path : ℕ
  pub argv : ℕ
  pub envp : ℕ
  pub statloc : ℕ

-- The calls of `shell_main`, in their order in the text.
pub data ShellPc : Type 0 where
  clearing greeting prompting reading complaining forking executing waiting asking : ShellPc

-- The stub that is called, with its arguments.
unfoldable pub shell_call : ShellData → ShellPc → IntrContext → IntrContext
shell_call d ShellPc.clearing = clear_my_screen
shell_call d ShellPc.greeting = write stdout_fileno d.shell_text 12
shell_call d ShellPc.prompting = write stdout_fileno d.prompt_text 7
shell_call d ShellPc.reading = read stdin_fileno d.command 30
shell_call d ShellPc.complaining = write stdin_fileno d.not_found_text 20
shell_call d ShellPc.forking = fork
shell_call d ShellPc.executing = execve d.path d.argv d.envp
shell_call d ShellPc.waiting = wait d.statloc
shell_call d ShellPc.asking = write stdin_fileno d.prompt_text 8

-- A word that is positive as an `int`.
unfoldable pub positive : ℕ → Bool
positive w = ltb 0 w && ltb w (2 ^ 31)

-- Where the shell goes on, by the result of the call. The child goes on behind `execve` where that fails.
unfoldable pub shell_next : ShellData → Bytes → ShellPc → ℕ → ShellPc
unfolding get_path positive
shell_next d m ShellPc.clearing r = ShellPc.greeting
shell_next d m ShellPc.greeting r = ShellPc.prompting
shell_next d m ShellPc.prompting r = ShellPc.reading
shell_next d m ShellPc.reading r =
    if positive r
    then (if (get_path d.path m).0 == minus_one then ShellPc.complaining else ShellPc.forking)
    else ShellPc.reading
shell_next d m ShellPc.complaining r = ShellPc.forking
shell_next d m ShellPc.forking r = if r == 0 then ShellPc.executing else ShellPc.waiting
shell_next d m ShellPc.executing r = ShellPc.waiting
shell_next d m ShellPc.waiting r = if positive r then ShellPc.asking else ShellPc.reading
shell_next d m ShellPc.asking r = ShellPc.reading

-- The shell in the kernel: the place in its text, its registers, and the state.
pub record Running : Type 0 where
  pub pc : ShellPc
  pub ptr : IntrContext
  pub state : System

abbrev resumed : ShellData → ShellPc → Trapped → Option Running
resumed d pc (back ptr s) =
    some (record { pc = shell_next d s.pages.mem pc ptr.eax; ptr = ptr; state = s })
resumed d pc _ = none

-- One call of the shell; `none` where it does not come back by itself.
unfoldable pub shell_step : Env → ShellData → Running → Option Running
unfolding shell_call shell_next
shell_step e d r = resumed d r.pc (interrupt e (shell_call d r.pc r.ptr) r.state)

-- `n` calls, with no other interrupt between them.
unfoldable pub shell_steps : ℕ → Env → ShellData → Running → Option Running
shell_steps zero e d r = some r
shell_steps (suc n) e d r = elim (shell_step e d r) [ none ↦ none | some r' ↦ shell_steps n e d r' ]

-- ===== src/User/Programs.antt =====
-- mypro.c, and what process 0 does in user mode at the end of main.c.
use nbos.Base.{ℕ, List, [], ◌∷◌, ◌==◌, if◌then◌else◌}
use nbos.Process.{IntrContext}
use nbos.User.{write, clear_my_screen, fork, execve, exit, stdout_fileno}

-- The calls of mypro.c's `main`, for the address of its text.
unfoldable pub mypro_main : ℕ → List (IntrContext → IntrContext)
mypro_main text = clear_my_screen ∷ write stdout_fileno text 14 ∷ exit 0 ∷ []

-- Process 0: it forks the shell, and then loops for ever without a call.
pub data MainPc : Type 0 where
  forking executing idle : MainPc

-- The calls of process 0, for the address of the path "/shell"; in the loop there is none.
unfoldable pub main_call : ℕ → MainPc → List (IntrContext → IntrContext)
main_call shell_path MainPc.forking = fork ∷ []
main_call shell_path MainPc.executing = execve shell_path 0 0 ∷ []
main_call shell_path MainPc.idle = []

-- A shell that cannot be started ends in the loop as well.
unfoldable pub main_next : MainPc → ℕ → MainPc
main_next MainPc.forking r = if r == 0 then MainPc.executing else MainPc.idle
main_next MainPc.executing r = MainPc.idle
main_next MainPc.idle r = MainPc.idle

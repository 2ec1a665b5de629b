-- ===== src/User.antt =====
-- The stubs of unistd.c and unistd.h: the registers with which each enters the kernel through `int $0x80`,
-- as syscall_handler of interrupt_handler.s saves them.
mod Tests
pub mod Programs
pub mod Shell
use nbos.Base.{ℕ}
use nbos.Process.{IntrContext}

abbrev pub sys_exit_number : ℕ
sys_exit_number = 1

abbrev pub sys_fork_number : ℕ
sys_fork_number = 2

abbrev pub sys_read_number : ℕ
sys_read_number = 3

abbrev pub sys_write_number : ℕ
sys_write_number = 4

abbrev pub sys_open_number : ℕ
sys_open_number = 5

abbrev pub sys_close_number : ℕ
sys_close_number = 6

abbrev pub sys_wait_number : ℕ
sys_wait_number = 7

abbrev pub sys_creat_number : ℕ
sys_creat_number = 8

abbrev pub sys_execve_number : ℕ
sys_execve_number = 11

abbrev pub sys_clear_screen_number : ℕ
sys_clear_screen_number = 72

abbrev pub stdin_fileno : ℕ
stdin_fileno = 0

abbrev pub stdout_fileno : ℕ
stdout_fileno = 1

-- The instruction `int $0x80` with a number in `eax`.
abbrev pub int_80 : ℕ → IntrContext → IntrContext
int_80 number ptr = record ptr { eax = number; inter_no = 0x80; error_code = 0 }

unfoldable pub write : ℕ → ℕ → ℕ → IntrContext → IntrContext
write fd buf size ptr = int_80 sys_write_number (record ptr { ebx = fd; ecx = buf; edx = size })

unfoldable pub clear_my_screen : IntrContext → IntrContext
clear_my_screen ptr = int_80 sys_clear_screen_number ptr

unfoldable pub open_file : ℕ → ℕ → IntrContext → IntrContext
open_file path oflag ptr = int_80 sys_open_number (record ptr { ebx = path; ecx = oflag })

unfoldable pub read : ℕ → ℕ → ℕ → IntrContext → IntrContext
read fd buf size ptr = int_80 sys_read_number (record ptr { ebx = fd; ecx = buf; edx = size })

unfoldable pub close : ℕ → IntrContext → IntrContext
close fd ptr = int_80 sys_close_number (record ptr { ebx = fd })

unfoldable pub creat : ℕ → ℕ → IntrContext → IntrContext
creat path mode ptr = int_80 sys_creat_number (record ptr { ebx = path; ecx = mode })

unfoldable pub fork : IntrContext → IntrContext
fork ptr = int_80 sys_fork_number ptr

unfoldable pub execve : ℕ → ℕ → ℕ → IntrContext → IntrContext
execve pathname argv envp ptr =
    int_80 sys_execve_number (record ptr { ebx = pathname; ecx = argv; edx = envp })

unfoldable pub wait : ℕ → IntrContext → IntrContext
wait statloc ptr = int_80 sys_wait_number (record ptr { ebx = statloc })

unfoldable pub exit : ℕ → IntrContext → IntrContext
exit status ptr = int_80 sys_exit_number (record ptr { ebx = status })

-- ===== src/System/Tests.antt =====
-- The theorems on the whole kernel at a state that the initialisation leaves.
use mathlib.Core.Path.{◌≡◌, refl}
use nbos.Base.{◌∷◌, ℕ, ltb, leb, ◌&&◌, none, [], replicate}
use nbos.Base.Bytes.{Bytes}
use nbos.Base.Int.{pos}
use nbos.File.Content.{OpenFile}
use nbos.File.Table.{init_open_file_list}
use nbos.Process.{Context, Pcb, IntrContext, RunState, init_pcb}
use nbos.Screen.{Screen}
use nbos.Syscall.{minus_one}
use nbos.System.{System, Env, back, interrupt}
use nbos.System.Reach.{Reach, booted, next, returns}
use nbos.System.Standard.{sys_read-standard}

abbrev pub zeros : Bytes
zeros k = 0

abbrev context : Context
context = record {
  edi = 0;
  esi = 0;
  ebp = 0;
  nesp = 0;
  ebx = 0;
  edx = 0;
  ecx = 0;
  eax = 0;
  gs = 0;
  fs = 0;
  es = 0;
  ds = 0;
  eip = 0;
  cs = 0;
  eflags = 0;
  esp = 0;
  ss = 0;
}

-- A process block before the initialisation.
abbrev pub block : Pcb
block = record {
  ctx = context;
  size = 0;
  sector = 0;
  pid = 0;
  father_pid = 0;
  pstate = RunState.free;
  pagedir = 0;
  next_vir_addr = 0;
  fdlist = replicate 20 (record { open_flag = 0; ofptr = none });
}

abbrev pub shut : OpenFile
shut = record { oflags = 0; offset = 0; f_inode_block_no = 0; f_inode_offset = 0; isopen = 0 }

abbrev pub screen : Screen
screen = record { high_cursor = 0; low_cursor = 0; video = zeros; video_lock = 0 }

abbrev pub state : System
state = record {
  tables_at = λ a. leb 0xc010_8000 a && ltb a 0xc010_c000;
  kernel = init_pcb (replicate 20 block) 1 0xc010_0000;
  file_list = init_open_file_list (replicate 100 shut);
  disk = λ n. zeros;
  screen = screen;
  keyboard = record { key_buffer = zeros; offset = pos 0; status_shift = 0 };
  pages = record { mem = zeros; free_list = 0xc020_0000 };
}

abbrev pub env : Env
env = record {
  walk = λ dir mem a. a;
  behind = λ n. zeros;
  bound = 100;
  scancode = 0;
  intr_name = [];
  eax_left = 0;
}

-- Registers on the entry from a user program.
abbrev pub entered : ℕ → ℕ → ℕ → ℕ → IntrContext
entered a b c d = record {
  edi = 0;
  esi = 0;
  ebp = 0;
  esp_current = 0;
  ebx = b;
  edx = d;
  ecx = c;
  eax = a;
  gs = 0;
  fs = 0;
  es = 0;
  ds = 0;
  inter_no = 0x80;
  error_code = 0;
  eip = 0x1000;
  cs = 0x1b;
  eflags = 0x202;
  esp = 0xbfff_0000;
  ss = 0x23;
}

abbrev pub reached : Reach state
reached = booted state (replicate 20 block) 0xc010_0000 (replicate 100 shut) refl refl refl refl

sys_read-standard_example :
    interrupt env (entered 3 0 0x2000 30) state ≡ back (entered minus_one 0 0x2000 30) state
sys_read-standard_example =
    sys_read-standard env state (entered 3 0 0x2000 30) reached tt refl refl refl

-- One step on, after a `sys_read`.
abbrev after_read : Reach state
after_read = next reached (
    returns env (entered 3 0 0x2000 30) (entered minus_one 0 0x2000 30)
      (sys_read-standard env state (entered 3 0 0x2000 30) reached tt refl refl refl))

-- A running process and a free block.
abbrev lone : System
lone = record state {
  kernel = record {
    pcblist = record block { pstate = RunState.running; pid = 1 } ∷ block ∷ [];
    nextpid = 5;
    current = 0;
  };
}

abbrev clock_tick : IntrContext
clock_tick = record (entered 5 0 0 0) { inter_no = 0x20 }

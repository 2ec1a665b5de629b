-- ===== src/Process.antt =====
-- process.c, the parts of syscall.c and interrupt.c that manage processes, and `struct pcb`.
mod Tests
pub mod Pid
pub mod Table
pub mod Sched
pub mod Wait
pub mod Exit
pub mod Starve
pub mod Space
pub mod Load
pub mod Fork
pub mod Execve
pub mod User
mod ImageTests
mod TableTests
use nbos.Base.{
  ℕ, zero, suc, ◌+◌, ◌-◌, Bool, true, false, not, ◌&&◌, ◌||◌, Option, none, some, List, [], ◌∷◌,
  ◌==◌, ltb, leb, if◌then◌else◌, set, get_elem?, replicate, map,
}

-- `enum run_state`
pub data RunState : Type 0 where
  free born runnable running zombie abort : RunState

abbrev pub is_free : RunState → Bool
is_free RunState.free = true
is_free _ = false

abbrev pub is_runnable : RunState → Bool
is_runnable RunState.runnable = true
is_runnable _ = false

abbrev pub is_zombie : RunState → Bool
is_zombie RunState.zombie = true
is_zombie _ = false

-- `struct fd`: the pointer is an index of the kernel's table of open files, or `none` for NULL.
pub record Fd : Type 0 where
  pub open_flag : ℕ
  pub ofptr : Option ℕ

-- The registers of `struct context` that the code saves and restores.
pub record Context : Type 0 where
  pub edi : ℕ
  pub esi : ℕ
  pub ebp : ℕ
  pub nesp : ℕ
  pub ebx : ℕ
  pub edx : ℕ
  pub ecx : ℕ
  pub eax : ℕ
  pub gs : ℕ
  pub fs : ℕ
  pub es : ℕ
  pub ds : ℕ
  pub eip : ℕ
  pub cs : ℕ
  pub eflags : ℕ
  pub esp : ℕ
  pub ss : ℕ

-- `struct pcb`
pub record Pcb : Type 0 where
  pub ctx : Context
  pub size : ℕ
  pub sector : ℕ
  pub pid : ℕ
  pub father_pid : ℕ
  pub pstate : RunState
  pub pagedir : ℕ
  pub next_vir_addr : ℕ
  pub fdlist : List Fd

abbrev pub pcb_max : ℕ
pcb_max = 20

abbrev pub pid_max : ℕ
pid_max = 60

-- The process tables: `pcblist`, `nextpid`, and the index of `mycpu.current_process` in the list.
pub record Kernel : Type 0 where
  pub pcblist : List Pcb
  pub nextpid : ℕ
  pub current : ℕ

-- The index of the first process, from `i` on, that passes a test: the loops that stop at `break`.
unfoldable pub first_index : (Pcb → Bool) → ℕ → List Pcb → Option ℕ
first_index test i [] = none
first_index test i (p ∷ ps) =
    let rest = first_index test (i + 1) ps in if test p then some i else rest

-- A write through a pointer into the list.
unfoldable pub update : ℕ → (Pcb → Pcb) → List Pcb → List Pcb
update i f [] = []
update zero f (p ∷ ps) = f p ∷ ps
update (suc i) f (p ∷ ps) = p ∷ update i f ps

-- The loop of `getPid` over the list.
unfoldable pub in_use : ℕ → List Pcb → Bool
in_use pid [] = false
in_use pid (p ∷ ps) = (p.pid == pid) || in_use pid ps

-- One pass from the label `reget` on: the pid that is tried, and `nextpid` after it.
unfoldable pub take_pid : ℕ → ℕ × ℕ
take_pid nextpid = if ltb pid_max nextpid then (1, 1) else (nextpid, nextpid + 1)

-- `getPid` with a bound on the number of passes; the outer `none` means that it is used up. The
-- inner `none` is the result -1.
unfoldable pub get_pid : ℕ → List Pcb → ℕ → Option (Option ℕ × ℕ)
get_pid zero ps nextpid = none
get_pid (suc fuel) ps nextpid =
    let (pid, nextpid') = take_pid nextpid in
    let again = get_pid fuel ps nextpid' in
    if in_use pid ps then again else some ((if ltb pid pid_max then some pid else none), nextpid')

abbrev pub new_pcb : Pcb → Pcb
new_pcb p = record p {
  next_vir_addr = 0;
  pstate = RunState.free;
  fdlist = replicate 20 (record { open_flag = 0; ofptr = none });
}

-- `init_pcb`: the list as it is found, and the kernel's page directory.
unfoldable pub init_pcb : List Pcb → ℕ → ℕ → Kernel
init_pcb ps nextpid pagedir = record {
  pcblist =
      update 0 (λ p. record p { pid = 0; pstate = RunState.running; pagedir = pagedir })
        (map new_pcb ps);
  nextpid = nextpid;
  current = 0;
}

-- The pid of the current process; the pointer always leads to an element of the list.
unfoldable pub current_pid : Kernel → ℕ
current_pid k = elim (get_elem? k.pcblist k.current) [ none ↦ 0 | some p ↦ p.pid ]

-- `allocProcess`: NULL, a write through NULL where no process block is free, or the block's index.
pub data Allocation : Type 0 where
  null : ℕ → Allocation
  fault : Allocation
  block : ℕ → Kernel → Allocation

unfoldable pub claim : Kernel → ℕ → ℕ → ℕ → Kernel
unfolding current_pid
claim k i pid nextpid = record k {
  pcblist =
      update i (λ p. record p { pstate = RunState.runnable; pid = pid; father_pid = current_pid k })
        k.pcblist;
  nextpid = nextpid;
}

-- 83 passes are enough for `getPid`.
unfoldable pub alloc_process : Kernel → Allocation
alloc_process k = elim (get_pid 83 k.pcblist k.nextpid) [
  | none ↦ fault
  | some (none, nextpid) ↦ null nextpid
  | some (some pid, nextpid) ↦ elim (first_index (λ p. is_free p.pstate) 0 k.pcblist) [
    | none ↦ fault
    | some i ↦ block i (claim k i pid nextpid)
  ]
]

-- `struct intr_context`: what the interrupt's entry and the processor push.
pub record IntrContext : Type 0 where
  pub edi : ℕ
  pub esi : ℕ
  pub ebp : ℕ
  pub esp_current : ℕ
  pub ebx : ℕ
  pub edx : ℕ
  pub ecx : ℕ
  pub eax : ℕ
  pub gs : ℕ
  pub fs : ℕ
  pub es : ℕ
  pub ds : ℕ
  pub inter_no : ℕ
  pub error_code : ℕ
  pub eip : ℕ
  pub cs : ℕ
  pub eflags : ℕ
  pub esp : ℕ
  pub ss : ℕ

-- `copyContext`
unfoldable pub copy_context : IntrContext → Pcb → Pcb
copy_context father p = record p {
  ctx = record p.ctx {
    eax = 0;
    ebx = father.ebx;
    ecx = father.ecx;
    edx = father.edx;
    edi = father.edi;
    esi = father.esi;
    ebp = father.ebp;
    esp = father.esp;
    ds = father.ds;
    es = father.es;
    fs = father.fs;
    gs = father.gs;
    cs = father.cs;
    ss = father.ss;
    eip = father.eip;
    eflags = father.eflags;
  };
}

-- ===== src/Process/ImageTests.antt =====
-- The theorems on page tables and fork at a concrete memory.
use native.Mathlib.Omega.{arith}
use mathlib.Core.Path.{◌≡◌, refl}
use nbos.Base.{
  ℕ, zero, suc, ◌+◌, ◌*◌, ◌≤◌, ◌<◌, ◌⊎◌, true, some, [], ◌∷◌, ◌==◌, if◌then◌else◌, get_elem?,
}
use nbos.Base.Bytes.{Bytes, read32}
use nbos.Memory.Pages.{Pages, present, item_address, phy_2_vir}
use nbos.Process.Space.{page_of, release_table}
use nbos.Process.Space.Release.{PagesApart, EntriesApart, release_table-still_named}
use nbos.Process.{
  RunState, Context, Pcb, Kernel, IntrContext, Allocation, alloc_process, claim, get_pid, take_pid,
  in_use, first_index,
}
use nbos.Process.Fork.{sys_fork, child, GoesOn, sys_fork_lem}

-- The list of free pages starts with 0xc0300000 and 0xc0301000.
-- The entry at 0xc0100000 names the page at 0xc0200000, whose first entry names the one at 0xc0400000.
abbrev memory : Bytes
memory k =
    if k == 0xc010_0000
    then 7
    else if k == 0xc010_0002
    then 0x20
    else if k == 0xc020_0000
    then 7
    else if k == 0xc020_0002
    then 0x40
    else if k == 0xc030_0001
    then 0x10
    else if k == 0xc030_0002
    then 0x30
    else if k == 0xc030_0003
    then 0xc0
    else 0

abbrev pages : Pages
pages = record { mem = memory; free_list = 0xc030_0000 }

named : page_of 0xc010_0000 memory ≡ 0xc020_0000
unfolding phy_2_vir item_address read32
named = refl

there : present (read32 memory 0xc010_0000) ≡ true
unfolding present read32
there = refl

-- Only the first entry of the table is present.
first_only :
    (j a : ℕ)
    → (a < 0xc040_0000) ⊎ (0xc040_0004 ≤ a)
    → present (read32 memory (0xc020_0000 + j * 4)) ≡ true
    → (a < page_of (0xc020_0000 + j * 4) memory) ⊎ (page_of (0xc020_0000 + j * 4) memory + 4 ≤ a)
unfolding present read32 phy_2_vir item_address
first_only zero a far is = far
first_only (suc j) a far is = ground arith

table_apart : EntriesApart memory 0xc020_0000 1024
table_apart a lo hi j lt = first_only j a (omega arith)

entry_apart : (a : ℕ) → 0xc010_0000 ≤ a → a < 0xc010_0004 → PagesApart memory 0xc020_0000 1024 a
entry_apart a lo hi j lt = first_only j a (omega arith)

release_table-still_named_example :
    (present (read32 (release_table 0xc010_0000 pages).mem 0xc010_0000) ≡ true)
    × (page_of 0xc010_0000 (release_table 0xc010_0000 pages).mem
        ≡ (release_table 0xc010_0000 pages).free_list)
release_table-still_named_example =
    release_table-still_named 0xc010_0000 pages there (omega (arith, named)) (rw named table_apart)
      (rw named entry_apart)

abbrev context : Context
context = record {
  edi = 0;
  esi = 0;
  ebp = 0;
  nesp = 0;
  ebx = 0;
  edx = 0;
  ecx = 0;
  eax = 0;
  gs = 0;
  fs = 0;
  es = 0;
  ds = 0;
  eip = 0;
  cs = 0;
  eflags = 0;
  esp = 0;
  ss = 0;
}

abbrev process : RunState → ℕ → Pcb
process s pid = record {
  ctx = context;
  size = 0;
  sector = 0;
  pid = pid;
  father_pid = 0;
  pstate = s;
  pagedir = 0xc010_0000;
  next_vir_addr = 0;
  fdlist = record { open_flag = 1; ofptr = some 0 } ∷ [];
}

abbrev kernel : Kernel
kernel = record {
  pcblist = process RunState.running 1 ∷ process RunState.free 0 ∷ process RunState.runnable 2 ∷ [];
  nextpid = 5;
  current = 0;
}

abbrev fork_call : IntrContext
fork_call = record {
  edi = 0;
  esi = 0;
  ebp = 0;
  esp_current = 0;
  ebx = 0;
  edx = 0;
  ecx = 0;
  eax = 2;
  gs = 0;
  fs = 0;
  es = 0;
  ds = 0;
  inter_no = 0;
  error_code = 0;
  eip = 0x1000;
  cs = 0;
  eflags = 0;
  esp = 0x2000;
  ss = 0;
}

claimed : alloc_process kernel ≡ Allocation.block 1 (claim kernel 1 5 6)
unfolding alloc_process get_pid take_pid in_use first_index
claimed = refl

sys_fork_lem_example :
    (k' : Kernel) × (s' : Pages) × (p : Pcb) × (sys_fork fork_call kernel pages ≡ child 5 k' s')
    × ((get_elem? k'.pcblist 1 ≡ some p)
        × (p.pid ≡ 5)
        × (p.pstate ≡ RunState.runnable)
        × (p.father_pid ≡ 1)
        × (p.fdlist ≡ (process RunState.running 1).fdlist)
        × (p.pagedir ≡ 0xc030_0000))
    × GoesOn p.ctx fork_call 0
    × (get_elem? k'.pcblist 2 ≡ some (process RunState.runnable 2))
sys_fork_lem_example =
    sys_fork_lem fork_call kernel pages 1 2 5 6 (process RunState.running 1)
      (process RunState.free 0) claimed refl refl (λ e. absurd (omega (arith, e)))
      (λ e. absurd (omega (arith, e)))

-- ===== src/Process/Tests.antt =====
-- The theorems on processes at concrete process tables.
use native.Mathlib.Omega.{arith}
use mathlib.Core.Path.{◌≡◌, refl}
use nbos.Base.{◌%◌, ℕ, zero, suc, ◌≢◌, true, false, some, [], ◌∷◌, ltb, if◌then◌else◌, get_elem?}
use nbos.Process.{
  RunState, Context, Pcb, Kernel, IntrContext, first_index, is_free, in_use, current_pid, get_pid,
  pid_max, alloc_process, claim, block, null, update,
}
use nbos.Process.Pid.{Found, get_pid_total}
use nbos.Process.Table.{alloc_process_lem}
use nbos.Process.Sched.{do_timer_handler}
use nbos.Process.Sched.Switch.{
  OneRunning, Turned, Holds, state_at, do_timer_handler_switch, do_timer_handler-OneRunning,
}
use nbos.Process.Starve.{ticks, table, ticks_starve}
use nbos.Process.Wait.{sys_wait, reaped, sys_wait_lem}
use nbos.Memory.Pages.{Pages, free_page}
use nbos.Process.Sched.{load_cr3, switch_ctx, enter, vir_to_phy}
use nbos.Process.Exit.{sys_exit, get_pcb, close_fds, Exited}

abbrev context : Context
context = record {
  edi = 0;
  esi = 0;
  ebp = 0;
  nesp = 0;
  ebx = 0;
  edx = 0;
  ecx = 0;
  eax = 0;
  gs = 0;
  fs = 0;
  es = 0;
  ds = 0;
  eip = 0;
  cs = 0;
  eflags = 0;
  esp = 0;
  ss = 0;
}

abbrev interrupted : IntrContext
interrupted = record {
  edi = 1;
  esi = 2;
  ebp = 3;
  esp_current = 4;
  ebx = 5;
  edx = 6;
  ecx = 7;
  eax = 8;
  gs = 9;
  fs = 10;
  es = 11;
  ds = 12;
  inter_no = 32;
  error_code = 0;
  eip = 13;
  cs = 14;
  eflags = 15;
  esp = 16;
  ss = 17;
}

abbrev process : RunState → ℕ → ℕ → Pcb
process s pid father = record {
  ctx = context;
  size = 0;
  sector = 0;
  pid = pid;
  father_pid = father;
  pstate = s;
  pagedir = 4096;
  next_vir_addr = 0;
  fdlist = [];
}

abbrev init : Pcb
init = process RunState.running 1 0

abbrev shell : Pcb
shell = process RunState.runnable 2 1

abbrev job : Pcb
job = process RunState.zombie 3 1

abbrev unused : Pcb
unused = process RunState.free 0 0

abbrev system : Kernel
system = record { pcblist = init ∷ shell ∷ job ∷ unused ∷ []; nextpid = 60; current = 0 }

alone : (j : ℕ) → j ≢ 0 → state_at system.pcblist j ≢ some RunState.running
alone zero ne e = ne refl
alone (suc zero) ne e = cc e
alone (suc (suc zero)) ne e = cc e
alone (suc (suc (suc zero))) ne e = cc e
alone (suc (suc (suc (suc j)))) ne e = cc e

system-OneRunning : OneRunning system
system-OneRunning = record { runs = refl; alone = alone }

get_pid_total_example : Found system.pcblist (get_pid 83 system.pcblist 60)
get_pid_total_example = get_pid_total system.pcblist 60 (omega arith) (omega arith)

alloc_process_lem_example :
    (pid : ℕ) × (nextpid : ℕ) × (p : Pcb) × (in_use pid system.pcblist ≡ false)
    × (get_elem? system.pcblist 3 ≡ some p)
    × (is_free p.pstate ≡ true)
    × (alloc_process system
        ≡ (if ltb pid pid_max then block 3 (claim system 3 pid nextpid) else null nextpid))
    × (get_elem? (claim system 3 pid nextpid).pcblist 3
        ≡ some
            (record p { pstate = RunState.runnable; pid = pid; father_pid = current_pid system }))
    × (get_elem? (claim system 3 pid nextpid).pcblist 1 ≡ get_elem? system.pcblist 1)
unfolding first_index
alloc_process_lem_example =
    alloc_process_lem system (omega arith) (omega arith) 3 1 refl (λ e. absurd (omega arith))

do_timer_handler_switch_example :
    (p q p' q' : Pcb) × (get_elem? system.pcblist 1 ≡ some p)
    × (get_elem? system.pcblist system.current ≡ some q)
    × ((do_timer_handler interrupted system).0.current ≡ 1)
    × ((get_elem? (do_timer_handler interrupted system).0.pcblist 1 ≡ some p')
        × Turned RunState.running p p'
        × (p'.ctx ≡ p.ctx))
    × ((get_elem? (do_timer_handler interrupted system).0.pcblist system.current ≡ some q')
        × Turned RunState.runnable q q'
        × Holds q'.ctx interrupted)
    × (get_elem? (do_timer_handler interrupted system).0.pcblist 2 ≡ get_elem? system.pcblist 2)
unfolding first_index
do_timer_handler_switch_example =
    do_timer_handler_switch interrupted system 1 2 system-OneRunning refl
      (λ e. absurd (omega arith)) (λ e. absurd (omega arith))

do_timer_handler-OneRunning_example : OneRunning (do_timer_handler interrupted system).0
do_timer_handler-OneRunning_example =
    do_timer_handler-OneRunning interrupted system system-OneRunning

ticks_starve_example :
    (ticks
      (interrupted ∷ interrupted ∷ interrupted ∷ [])
      (table (init ∷ shell ∷ (shell ∷ shell ∷ [])) 4 0)).current
    ≡ 3 % 2
ticks_starve_example =
    ticks_starve (shell ∷ shell ∷ []) 4 (interrupted ∷ interrupted ∷ interrupted ∷ []) init shell
      refl refl

sys_wait_lem_example :
    (p p' : Pcb) × (k' : Kernel) × (sys_wait system ≡ reaped p.pid k')
    × (get_elem? system.pcblist 2 ≡ some p)
    × ((p.father_pid ≡ current_pid system) × (p.pstate ≡ RunState.zombie))
    × ((get_elem? k'.pcblist 2 ≡ some p')
        × (p'.pstate ≡ RunState.free)
        × (p'.pid ≡ 0)
        × (p'.father_pid ≡ 0)
        × (p'.pagedir ≡ 0))
    × (get_elem? k'.pcblist 1 ≡ get_elem? system.pcblist 1)
unfolding current_pid first_index
sys_wait_lem_example =
    sys_wait_lem system 2 1 (λ e. absurd (omega arith)) refl (λ e. absurd (omega arith))

abbrev pages : Pages
pages = record { mem = λ k. 0; free_list = 0xc014_3000 }

abbrev left : Exited
left = record {
  kernel = record system {
    pcblist = process RunState.zombie 1 0 ∷ shell ∷ job ∷ unused ∷ [];
    current = 1;
  };
  files = [];
  pages = free_page 4096 pages;
  effects = load_cr3 (vir_to_phy 4096) ∷ switch_ctx context ∷ [];
}

init_leaves : sys_exit system [] pages ≡ some left
unfolding sys_exit get_pcb close_fds current_pid update first_index enter
init_leaves = refl

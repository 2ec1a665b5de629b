-- ===== src/System/Twice.antt =====
-- `fork` as its two callers see it: `sys_fork` and then the timer's handler, which enters the child.
use nbos.Base.{ℕ, ◌≡◌, true, none, some, List, get_elem?}
use nbos.Process.{
  Pcb, Kernel, IntrContext, Allocation, alloc_process, claim, first_index, is_free, is_runnable,
  update,
}
use nbos.Process.Fork.{forked, forked_pcb, claimed_pcb}
use nbos.Process.Sched.{save, swap_states}
use nbos.Process.Sched.Switch.{OneRunning}
use nbos.Process.Space.{copy_process_mem}
use nbos.System.{System}
use nbos.User.{fork}

module _ (s : System) (ptr f : IntrContext) (i pid nextpid : ℕ) (father old : Pcb)
    (one : OneRunning s.kernel)
    (alloc : alloc_process s.kernel ≡ Allocation.block i (claim s.kernel i pid nextpid))
    (at_father : get_elem? s.kernel.pcblist s.kernel.current ≡ some father)
    (at_old : get_elem? s.kernel.pcblist i ≡ some old) (idle : is_free old.pstate ≡ true)
    (nobody : first_index (λ p. is_runnable p.pstate) 0 s.kernel.pcblist ≡ none) where
  -- The kernel after `sys_fork`, and the child's block in it.
  abbrev k : Kernel
  k = forked (fork ptr) s.kernel s.pages i pid nextpid father

  abbrev child_pcb : Pcb
  child_pcb =
      forked_pcb (fork ptr) father (copy_process_mem father.pagedir s.pages).0
        (claimed_pcb s.kernel pid old)

  -- The list after the switch to the child.
  abbrev switched_list : List Pcb
  switched_list = update k.current (save f) (swap_states k.current i k.pcblist)

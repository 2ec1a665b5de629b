-- ===== src/Process/Fork.antt =====
-- `sys_fork` of syscall.c.
use nbos.Base.{ℕ, ◌≡◌, ◌≢◌, refl, ◌∙◌, Option, some, get_elem?}
use nbos.Memory.Pages.{Pages, alloc_page}
use nbos.Process.{
  Pcb, Kernel, RunState, Context, IntrContext, Allocation, alloc_process, copy_context, update,
  current_pid, claim,
}
use nbos.Process.Table.{get_elem?-update_self, get_elem?-update_ne}
use nbos.Process.Space.{copy_process_mem}

-- The result -1, with the process tables; a use of a null pointer; or the pid of the child.
pub data ForkResult : Type 0 where
  failed : Kernel → ForkResult
  fault : ForkResult
  child : ℕ → Kernel → Pages → ForkResult

-- The child's block: both tables of descriptors have 20 entries.
abbrev pub forked_pcb : IntrContext → Pcb → ℕ → Pcb → Pcb
forked_pcb ptr father dir p = copy_context ptr (record p { fdlist = father.fdlist; pagedir = dir })

-- Steps 1 to 4 of `sys_fork`, for the block `i`.
abbrev pub fill_child : IntrContext → ℕ → Kernel → Pages → Pcb → Pcb → ForkResult
fill_child ptr i k s father p =
    let (dir, s') = copy_process_mem father.pagedir s in
    child p.pid (record k { pcblist = update i (forked_pcb ptr father dir) k.pcblist }) s'

abbrev pub fork_block : IntrContext → ℕ → Kernel → Pages → Option Pcb → Option Pcb → ForkResult
fork_block ptr i k s (some father) (some p) = fill_child ptr i k s father p
fork_block ptr i k s father p = fault

abbrev pub fork_into : IntrContext → Kernel → Pages → Allocation → ForkResult
fork_into ptr k s (Allocation.null nextpid) = failed (record k { nextpid = nextpid })
fork_into ptr k s Allocation.fault = fault
fork_into ptr k s (Allocation.block i k') =
    fork_block ptr i k' s (get_elem? k'.pcblist k'.current) (get_elem? k'.pcblist i)

unfoldable pub sys_fork : IntrContext → Kernel → Pages → ForkResult
sys_fork ptr k s = fork_into ptr k s (alloc_process k)

-- The block of the child, as `allocProcess` claims it.
abbrev pub claimed_pcb : Kernel → ℕ → Pcb → Pcb
claimed_pcb k pid old = record old {
  pstate = RunState.runnable;
  pid = pid;
  father_pid = current_pid k;
}

-- The process tables after `sys_fork`.
abbrev pub forked : IntrContext → Kernel → Pages → ℕ → ℕ → ℕ → Pcb → Kernel
forked ptr k s i pid nextpid father = record (claim k i pid nextpid) {
  pcblist =
      update i (forked_pcb ptr father (copy_process_mem father.pagedir s).0)
        (claim k i pid nextpid).pcblist;
}

module _ (ptr : IntrContext) (k : Kernel) (s : Pages) (i pid nextpid : ℕ) (father old : Pcb)
    (alloc : alloc_process k ≡ Allocation.block i (claim k i pid nextpid))
    (at_father : get_elem? k.pcblist k.current ≡ some father)
    (at_old : get_elem? k.pcblist i ≡ some old) (ne : k.current ≢ i) where
  claimed_at : get_elem? (claim k i pid nextpid).pcblist i ≡ some (claimed_pcb k pid old)
  unfolding claim current_pid
  claimed_at = get_elem?-update_self i _ k.pcblist at_old

  pub sys_fork_eq :
      sys_fork ptr k s
      ≡ child pid (forked ptr k s i pid nextpid father) (copy_process_mem father.pagedir s).1
  unfolding sys_fork claim
  sys_fork_eq =
      let father_at : get_elem? (claim k i pid nextpid).pcblist k.current ≡ some father =
        get_elem?-update_ne i k.current _ k.pcblist ne ∙ at_father in
      rw (alloc, fork_block, father_at, claimed_at) refl

  pub forked_at :
      get_elem? (forked ptr k s i pid nextpid father).pcblist i
      ≡ some (forked_pcb ptr father (copy_process_mem father.pagedir s).0 (claimed_pcb k pid old))
  forked_at = get_elem?-update_self i _ (claim k i pid nextpid).pcblist claimed_at

-- A context that goes on where a call was made, with the call's registers but the result in `eax`.
pub record GoesOn (c : Context) (ptr : IntrContext) (result : ℕ) : Type 0 where
  pub eax : c.eax ≡ result
  pub eip : c.eip ≡ ptr.eip
  pub eflags : c.eflags ≡ ptr.eflags
  pub esp : c.esp ≡ ptr.esp
  pub ebp : c.ebp ≡ ptr.ebp
  pub ebx : c.ebx ≡ ptr.ebx
  pub ecx : c.ecx ≡ ptr.ecx
  pub edx : c.edx ≡ ptr.edx
  pub esi : c.esi ≡ ptr.esi
  pub edi : c.edi ≡ ptr.edi
  pub cs : c.cs ≡ ptr.cs
  pub ss : c.ss ≡ ptr.ss
  pub ds : c.ds ≡ ptr.ds
  pub es : c.es ≡ ptr.es
  pub fs : c.fs ≡ ptr.fs
  pub gs : c.gs ≡ ptr.gs

pub copy_context-GoesOn : (ptr : IntrContext) (p : Pcb) → GoesOn (copy_context ptr p).ctx ptr 0
unfolding copy_context
copy_context-GoesOn ptr p = record {
  eax = refl;
  eip = refl;
  eflags = refl;
  esp = refl;
  ebp = refl;
  ebx = refl;
  ecx = refl;
  edx = refl;
  esi = refl;
  edi = refl;
  cs = refl;
  ss = refl;
  ds = refl;
  es = refl;
  fs = refl;
  gs = refl;
}

-- Let `allocProcess` claim the block `i`, which is not the current process's, for the id `pid`. Then
-- `sys_fork` returns `pid`; the block `i` becomes a runnable child of the current process, with its
-- descriptors, a page directory of its own in the next free page, and the registers of the call, the
-- flags and the selectors too, but 0 in `eax`; every other block `j` stays, the father's too.
pub sys_fork_lem :
    (ptr : IntrContext) (k : Kernel) (s : Pages) (i j pid nextpid : ℕ) (father old : Pcb)
    → alloc_process k ≡ Allocation.block i (claim k i pid nextpid)
    → get_elem? k.pcblist k.current ≡ some father
    → get_elem? k.pcblist i ≡ some old
    → k.current ≢ i
    → j ≢ i
    → (k' : Kernel) × (s' : Pages) × (p : Pcb) × (sys_fork ptr k s ≡ child pid k' s')
      × ((get_elem? k'.pcblist i ≡ some p)
          × (p.pid ≡ pid)
          × (p.pstate ≡ RunState.runnable)
          × (p.father_pid ≡ father.pid)
          × (p.fdlist ≡ father.fdlist)
          × (p.pagedir ≡ s.free_list))
      × GoesOn p.ctx ptr 0
      × (get_elem? k'.pcblist j ≡ get_elem? k.pcblist j)
unfolding sys_fork claim current_pid copy_process_mem copy_context alloc_page
sys_fork_lem ptr k s i j pid nextpid father old alloc at_father at_old ne other = (
  forked ptr k s i pid nextpid father,
  (copy_process_mem father.pagedir s).1,
  forked_pcb ptr father (copy_process_mem father.pagedir s).0 (claimed_pcb k pid old),
  sys_fork_eq ptr k s i pid nextpid father old alloc at_father at_old ne,
  (
    forked_at ptr k s i pid nextpid father old alloc at_father at_old ne,
    refl,
    refl,
    rw (current_pid, at_father),
    refl,
    refl,
  ),
  copy_context-GoesOn ptr (record (claimed_pcb k pid old) {
    fdlist = father.fdlist;
    pagedir = (copy_process_mem father.pagedir s).0;
  }),
  get_elem?-update_ne i j _ (claim k i pid nextpid).pcblist other
      ∙ get_elem?-update_ne i j _ k.pcblist other,
)

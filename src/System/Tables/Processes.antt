-- ===== src/System/Tables/Processes.antt =====
-- What `sys_fork`, `sys_wait`, `sys_exit` and the timer's handler leave of the processes' tables.
use nbos.Base.{
  ℕ, ◌≡◌, inl, inr, refl, Bool, true, false, Option, none, some, if◌then◌else◌, get_elem?,
  get_elem?-inside, All-at, Option-cases,
}
use nbos.Memory.Pages.{Pages}
use nbos.Process.{
  Pcb, Kernel, IntrContext, Allocation, is_free, first_index, get_pid, alloc_process, claim,
  current_pid, copy_context,
}
use nbos.Process.Fork.{ForkResult, forked_pcb, fork_block, fork_into, sys_fork}
use nbos.Process.Space.{copy_process_mem}
use nbos.Process.Table.{first_index-found}
use nbos.Process.Wait.{WaitResult, cleared, zombie_child, have_children, is_zero, reap, sys_wait}
use nbos.System.Tables.{Tables, PcbFds, Tables-update}

-- A search that ends at the process `i` leaves tables in which `i` can be the current one.
pub entered :
    (test : Pcb → Bool) (n i : ℕ) (k : Kernel)
    → first_index test 0 k.pcblist ≡ some i
    → Tables n k
    → Tables n (record k { current = i })
entered test n i k found h =
    let (p, at, _) = first_index-found test k.pcblist found in
    record { current_in = get_elem?-inside k.pcblist i at; every = h.every }

-- `allocProcess`
AfterAlloc : ℕ → Allocation → Type 0
AfterAlloc n (Allocation.null nextpid) = Unit
AfterAlloc n Allocation.fault = Unit
AfterAlloc n (Allocation.block i k) = Tables n k

alloc_process-AfterAlloc : (n : ℕ) (k : Kernel) → Tables n k → AfterAlloc n (alloc_process k)
unfolding alloc_process claim AfterAlloc
alloc_process-AfterAlloc n k h = elim (Option-cases (get_pid 83 k.pcblist k.nextpid)) [
  | inl e ↦ rw (AfterAlloc, alloc_process, e) tt
  | inr ((none, nextpid), e) ↦ rw (AfterAlloc, alloc_process, e) tt
  | inr ((some pid, nextpid), e) ↦
      elim (Option-cases (first_index (λ p. is_free p.pstate) 0 k.pcblist)) [
        | inl full ↦ rw (AfterAlloc, alloc_process, e, full) tt
        | inr (i, free) ↦
            rw (AfterAlloc, alloc_process, e, free) (Tables-update n i nextpid _ k (λ q fds. fds) h)
      ]
]

-- The tables are in order after `sys_fork`, where it returns.
abbrev pub AfterFork : ℕ → ForkResult → Type 0
AfterFork n (ForkResult.failed k) = Tables n k
AfterFork n ForkResult.fault = Unit
AfterFork n (ForkResult.child pid k pages) = Tables n k

pub sys_fork-AfterFork :
    (n : ℕ) (ptr : IntrContext) (k : Kernel) (s : Pages)
    → Tables n k
    → AfterFork n (sys_fork ptr k s)
unfolding sys_fork copy_process_mem copy_context AfterAlloc
sys_fork-AfterFork n ptr k s h = into (alloc_process k) (alloc_process-AfterAlloc n k h)
  where
    filled :
        (i : ℕ) (k' : Kernel) (father p : Option Pcb)
        → Tables n k'
        → ((q : Pcb) → father ≡ some q → PcbFds n q)
        → AfterFork n (fork_block ptr i k' s father p)
    filled i k' none p good from = tt
    filled i k' (some father) none good from = tt
    filled i k' (some father) (some p) good from =
        Tables-update n i k'.nextpid (forked_pcb ptr father _) k' (λ q fds. from father refl) good

    into : (a : Allocation) → AfterAlloc n a → AfterFork n (fork_into ptr k s a)
    into (Allocation.null nextpid) good = record { current_in = h.current_in; every = h.every }
    into Allocation.fault good = tt
    into (Allocation.block i k') good =
        filled i k' (get_elem? k'.pcblist k'.current) (get_elem? k'.pcblist i) good
          (λ q at. All-at (PcbFds n) k'.pcblist k'.current good.every at)

-- The tables are in order after `sys_wait`, where it has reaped a child.
abbrev pub AfterWait : ℕ → WaitResult → Type 0
AfterWait n (WaitResult.reaped pid k) = Tables n k
AfterWait n _ = Unit

pub sys_wait-AfterWait : (n : ℕ) (k : Kernel) → Tables n k → AfterWait n (sys_wait k)
unfolding sys_wait reap
sys_wait-AfterWait n k h = tested (is_zero (have_children pid k.pcblist))
  where
    pid : ℕ
    pid = current_pid k

    reaping : AfterWait n (reap pid k)
    reaping = elim (Option-cases (first_index (zombie_child pid) 0 k.pcblist)) [
      | inl e ↦ rw (AfterWait, reap, e) tt
      | inr (i, e) ↦ elim (Option-cases (get_elem? k.pcblist i)) [
        | inl missing ↦ rw (AfterWait, reap, e, missing) tt
        | inr (p, there) ↦
            rw (AfterWait, reap, e, there) (Tables-update n i k.nextpid cleared k (λ q fds. fds) h)
      ]
    ]

    tested : (b : Bool) → AfterWait n (if b then WaitResult.failed else reap pid k)
    tested true = tt
    tested false = reaping

-- ===== src/System/Reach.antt =====
-- The states that the kernel can be in: those that `init_pcb` and `init_openFileList` leave, and what the
-- interrupts and the programs make of them.
use nbos.Base.{
  ℕ, zero, suc, ◌≡◌, inl, refl, sym, ap, arith, true, none, some, List, [], ◌∷◌, map, length,
  replicate, get_elem?, All,
}
use mathlib.Core.Path.{subst}
use nbos.Base.Bytes.{Bytes}
use nbos.File.Content.{OpenFile}
use nbos.File.Table.{init_open_file_list}
use nbos.Process.{Fd, Pcb, IntrContext, RunState, init_pcb, new_pcb, pcb_max}
use nbos.Process.Sched.{Effect}
use nbos.Process.Table.{length-update}
use nbos.System.{System, Env, back, switched, halted, interrupt}
use nbos.System.Tables.{Tables, PcbFds, All-update}
use nbos.System.Interrupts.{InOrder, AfterTrap, interrupt-InOrder}

-- A step: an interrupt that comes back to a process, enters another one or halts the processor; a program
-- that writes to the memory; or, as a step of its own, a write through the memory into the processes'
-- tables, by the unchecked buffer of `sys_read`, a segment of a program that `sys_execve` loads, or a
-- program that is given such a page. What the state is after it, no one knows.
pub data Step (s t : System) : Type 0 where
  returns : (e : Env) (ptr ptr' : IntrContext) → interrupt e ptr s ≡ back ptr' t → Step s t
  switches :
      (e : Env) (ptr : IntrContext) (effects : List Effect)
      → interrupt e ptr s ≡ switched effects t
      → Step s t
  halts : (e : Env) (ptr : IntrContext) → interrupt e ptr s ≡ halted t → Step s t
  writes : (mem : Bytes) → t ≡ record s { pages = record s.pages { mem = mem } } → Step s t
  overwrites : Step s t

-- A step that leaves the memory at the places of the tables alone.
abbrev pub Beside : System → System → Type 0
Beside s t = (a : ℕ) → s.tables_at a ≡ true → t.pages.mem a ≡ s.pages.mem a

abbrev pub Kept : {s t : System} → Step s t → Type 0
Kept {s} {t} (returns e ptr ptr' run) = Beside s t
Kept {s} {t} (switches e ptr effects run) = Beside s t
Kept {s} {t} (halts e ptr run) = Beside s t
Kept {s} {t} (writes mem e) = Beside s t
Kept overwrites = ⊥

abbrev pub file_max_in_sys : ℕ
file_max_in_sys = 100

-- `pcb_max` process blocks and `file_max_in_sys` entries, in whatever state they are found.
pub data Reach : System → Type 0 where
  booted :
      (s : System) (ps : List Pcb) (pagedir : ℕ) (files : List OpenFile)
      → length ps ≡ pcb_max
      → length files ≡ file_max_in_sys
      → s.kernel ≡ init_pcb ps 1 pagedir
      → s.file_list ≡ init_open_file_list files
      → Reach s
  next : {s t : System} → Reach s → Step s t → Reach t

-- The way to a state has no write through the memory into the processes' tables.
abbrev pub Untouched : {s : System} → Reach s → Type 0
Untouched (booted s ps pagedir files count size kernel list) = Unit
Untouched (next r st) = Untouched r × Kept st

Step-InOrder : {s t : System} (st : Step s t) → Kept st → InOrder s → InOrder t
Step-InOrder {s} (returns e ptr ptr' run) kept h = subst AfterTrap run (interrupt-InOrder e ptr s h)
Step-InOrder {s} (switches e ptr effects run) kept h =
    subst AfterTrap run (interrupt-InOrder e ptr s h)
Step-InOrder {s} (halts e ptr run) kept h = subst AfterTrap run (interrupt-InOrder e ptr s h)
Step-InOrder (writes mem e) kept h = subst InOrder (sym e) h
Step-InOrder overwrites kept h = absurd kept

-- Descriptors that `init_pcb` has closed.
replicate-shut :
    (m i : ℕ) (f : Fd)
    → get_elem? (replicate m (record { open_flag = 0; ofptr = none })) i ≡ some f
    → f.open_flag ≡ 0
replicate-shut zero i f at = cc at
replicate-shut (suc m) zero f at = cc at
replicate-shut (suc m) (suc i) f at = replicate-shut m i f at

new_pcbs : (n : ℕ) (ps : List Pcb) → All (PcbFds n) (map new_pcb ps)
new_pcbs n [] = tt
new_pcbs n (p ∷ ps) =
    (record { count = refl; each = λ i f at. inl (replicate-shut 20 i f at) }, new_pcbs n ps)

length-new : (ps : List Pcb) → length (map new_pcb ps) ≡ length ps
length-new [] = refl
length-new (p ∷ ps) = ap suc (length-new ps)

init_pcb-Tables :
    (n : ℕ) (ps : List Pcb) (nextpid pagedir : ℕ)
    → length ps ≡ pcb_max
    → Tables n (init_pcb ps nextpid pagedir)
unfolding init_pcb
init_pcb-Tables n ps nextpid pagedir count = record {
  current_in = omega (
    arith,
    length-update 0 (λ p. record p { pid = 0; pstate = RunState.running; pagedir = pagedir })
        (map new_pcb ps),
    length-new ps,
    count,
  );
  every = All-update (PcbFds n) 0 _ (map new_pcb ps) (λ p fds. fds) (new_pcbs n ps);
}

pub Reach-InOrder : {s : System} (r : Reach s) → Untouched r → InOrder s
Reach-InOrder (booted s ps pagedir files count size kernel list) clean =
    subst (Tables (length s.file_list)) (sym kernel)
      (init_pcb-Tables (length s.file_list) ps 1 pagedir count)
Reach-InOrder (next r st) clean = Step-InOrder st clean.1 (Reach-InOrder r clean.0)

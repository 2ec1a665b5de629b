-- ===== src/System/Tables.antt =====
-- The tables of the processes: where the descriptors of every process lead, and which stay closed.
pub mod Files
pub mod Opens
pub mod Processes
pub mod Switches
use nbos.Base.{
  ℕ, zero, suc, ◌+◌, ◌≤◌, ◌<◌, ◌≡◌, ◌⊎◌, inl, inr, refl, sym, ap, ◌∙◌, arith, some, none, List, [],
  ◌∷◌, length, set, get_elem?, length-set, get_elem?-set, All,
}
use mathlib.Core.Path.{subst}
use nbos.File.Table.{file_max_in_process, closed_fd}
use nbos.Process.{Fd, Pcb, Kernel, update}
use nbos.Process.Table.{length-update}

-- The descriptor `i` leads to one of the `n` entries of the table of open files, and is not one of the
-- three standard descriptors.
pub record Leads (n i : ℕ) (f : Fd) : Type 0 where
  pub above : 3 ≤ i
  pub index : ℕ
  pub leads : f.ofptr ≡ some index
  pub inside : index < n

-- A process's descriptors: 20 of them, each closed or leading to an entry.
pub record Fds (n : ℕ) (fds : List Fd) : Type 0 where
  pub count : length fds ≡ file_max_in_process
  pub each : (i : ℕ) (f : Fd) → get_elem? fds i ≡ some f → (f.open_flag ≡ 0) ⊎ Leads n i f

abbrev pub PcbFds : ℕ → Pcb → Type 0
PcbFds n p = Fds n p.fdlist

-- The current process is in the list, and every process has such descriptors.
pub record Tables (n : ℕ) (k : Kernel) : Type 0 where
  pub current_in : k.current < length k.pcblist
  pub every : All (PcbFds n) k.pcblist

-- A write of a descriptor that is closed or leads to an entry.
pub Fds-set :
    (n i : ℕ) (v : Fd) (fds : List Fd)
    → (v.open_flag ≡ 0) ⊎ Leads n i v
    → Fds n fds
    → Fds n (set fds i v)
Fds-set n i v fds fine h = record {
  count = length-set fds i v ∙ h.count;
  each = λ j f at. elim (get_elem?-set fds i j v at) [
    | inl (place, same) ↦
        subst (λ (g : Fd). (g.open_flag ≡ 0) ⊎ Leads n j g) same
          (subst (λ (l : ℕ). (v.open_flag ≡ 0) ⊎ Leads n l v) (sym place) fine)
    | inr old ↦ h.each j f old
  ];
}

pub Fds-close : (n i : ℕ) (fds : List Fd) → Fds n fds → Fds n (set fds i closed_fd)
Fds-close n i fds h = Fds-set n i closed_fd fds (inl refl) h

-- A write to a process block.
pub All-update :
    (P : Pcb → Type 0) (i : ℕ) (f : Pcb → Pcb) (ps : List Pcb)
    → ((p : Pcb) → P p → P (f p))
    → All P ps
    → All P (update i f ps)
unfolding update
All-update P i f [] keep h = h
All-update P zero f (p ∷ ps) keep h = (keep p h.0, h.1)
All-update P (suc i) f (p ∷ ps) keep h = (h.0, All-update P i f ps keep h.1)

pub Tables-update :
    (n i nextpid : ℕ) (f : Pcb → Pcb) (k : Kernel)
    → ((p : Pcb) → PcbFds n p → PcbFds n (f p))
    → Tables n k
    → Tables n (record k { pcblist = update i f k.pcblist; nextpid = nextpid })
Tables-update n i nextpid f k keep h = record {
  current_in = let same = length-update i f k.pcblist in omega (arith, same, h.current_in);
  every = All-update (PcbFds n) i f k.pcblist keep h.every;
}

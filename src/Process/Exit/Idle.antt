-- ===== src/Process/Exit/Idle.antt =====
-- The state in which `sys_exit` leaves the table of processes.
use nbos.Base.{
  ℕ, ◌≡◌, ◌≢◌, sym, ap, ◌∙◌, arith, true, Option, none, some, List, get_elem?, Option-cases, inl,
  inr,
}
use native.Mathlib.Decide.{ℕ_discrete}
use nbos.File.Content.{OpenFile}
use nbos.Memory.Pages.{Pages}
use nbos.Process.{Pcb, Kernel, RunState, is_runnable, first_index, update, current_pid}
use nbos.Process.Table.{get_elem?-update_self, get_elem?-update_ne, first_index-found}
use nbos.Process.Sched.Switch.{state_at, state_of, OneRunning}
use nbos.Process.Exit.{get_pcb, close_fds, sys_exit, Exited, leave, exited_pcb}

-- The table with the current process gone.
abbrev gone : Kernel → List OpenFile → Pcb → List Pcb
gone k files p = update k.current (exited_pcb (close_fds p.fdlist files).0) k.pcblist

abbrev kernel_of : Option Exited → Option Kernel
kernel_of none = none
kernel_of (some e) = some e.kernel

runnable-state : (p : Pcb) → is_runnable p.pstate ≡ true → p.pstate ≡ RunState.runnable
runnable-state p h = ground arith

gone-state :
    (k : Kernel) (files : List OpenFile) (p : Pcb) (j : ℕ)
    → OneRunning k
    → get_elem? k.pcblist k.current ≡ some p
    → state_at (gone k files p) j ≢ some RunState.running
gone-state k files p j one here run = elim (ℕ_discrete j k.current) [
  | yes e ↦
      let zombie = ap state_of (
        ap (get_elem? (gone k files p)) e
        ∙ get_elem?-update_self k.current (exited_pcb (close_fds p.fdlist files).0) k.pcblist
            here) in
      cc (zombie, run)
  | no ne ↦ one.alone j ne (
      sym (
        ap state_of
          (get_elem?-update_ne k.current j (exited_pcb (close_fds p.fdlist files).0) k.pcblist ne))
      ∙ run)
]

-- After `sys_exit` of the running process, which `getPCB` must find, no process is marked running: the
-- next one goes on as the current process in the state RUNNABLE.
pub sys_exit-none_running :
    (k : Kernel) (files : List OpenFile) (pages : Pages) (e : Exited) (j : ℕ)
    → OneRunning k
    → get_pcb (current_pid k) 0 none k.pcblist ≡ some k.current
    → sys_exit k files pages ≡ some e
    → (state_at e.kernel.pcblist j ≢ some RunState.running)
      × (state_at e.kernel.pcblist e.kernel.current ≡ some RunState.runnable)
unfolding sys_exit
sys_exit-none_running k files pages e j one found run =
    elim (Option-cases (get_elem? k.pcblist k.current)) [
      | inl missing ↦ cc (one.runs, ap state_of missing)
      | inr (p, here) ↦
          elim (Option-cases (first_index (λ q. is_runnable q.pstate) 0 (gone k files p))) [
            | inl stuck ↦
                let none_there : sys_exit k files pages ≡ none =
                  rw (sys_exit, found, here, leave, stuck) in
                cc (none_there, run)
            | inr (n, next) ↦
                let (q, at_n, ready) =
                  first_index-found (λ q. is_runnable q.pstate) (gone k files p) next in
                let result : kernel_of (sys_exit k files pages)
                    ≡ some (record k { pcblist = gone k files p; current = n }) =
                  rw (sys_exit, found, here, leave, next) in
                let same : record k { pcblist = gone k files p; current = n } ≡ e.kernel =
                  cc (result, ap kernel_of run) in
                (
                  (λ running.
                      gone-state k files p j one here
                        (ap (λ (l : Kernel). state_at l.pcblist j) same ∙ running)),
                  ap (λ (l : Kernel). state_at l.pcblist l.current) (sym same)
                      ∙ ap state_of at_n
                      ∙ ap some (runnable-state q ready),
                )
          ]
    ]

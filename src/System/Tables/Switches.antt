-- ===== src/System/Tables/Switches.antt =====
-- What `sys_exit` and the timer's handler leave of the processes' tables.
use nbos.Base.{
  ℕ, zero, suc, ◌≡◌, ◌⊎◌, inl, inr, refl, sym, ap, ◌∙◌, Option, none, some, List, All-at, [], ◌∷◌,
  ◌==◌, length, get_elem?, Option-cases, Bool-cases,
}
use mathlib.Core.Path.{subst}
use mathlib.Core.Option.{some_inj}
use nbos.File.Content.{OpenFile}
use nbos.File.Table.{closed_fd, del_file}
use nbos.Memory.Pages.{Pages}
use nbos.Process.{
  Fd, Pcb, Kernel, RunState, IntrContext, is_runnable, first_index, current_pid, update,
}
use nbos.Process.Exit.{Exited, close_fds, exited_pcb, get_pcb, leave, sys_exit}
use nbos.Process.Sched.{save, with_state, swap_states, do_timer_handler}
use nbos.System.Tables.{Tables, Fds, PcbFds, Tables-update}
use nbos.System.Tables.Opens.{del_file-length}
use nbos.System.Tables.Processes.{entered}

close_fds-length :
    (fds : List Fd) (files : List OpenFile)
    → (length (close_fds fds files).0 ≡ length fds)
      × (length (close_fds fds files).1 ≡ length files)
unfolding close_fds
close_fds-length [] files = (refl, refl)
close_fds-length (f ∷ fds) files = elim (Bool-cases (f.open_flag == 1)) [
  | inl e ↦
      let (fewer, same) = close_fds-length fds (del_file f.ofptr files) in
      rw e (ap suc fewer, same ∙ del_file-length f.ofptr files)
  | inr e ↦ let (fewer, same) = close_fds-length fds files in rw e (ap suc fewer, same)
]

-- A descriptor is closed, or stands in the list.
abbrev ClosedOr : List Fd → ℕ → Fd → Type 0
ClosedOr fds j g = (g.open_flag ≡ 0) ⊎ (get_elem? fds j ≡ some g)

cons-ClosedOr :
    (v f : Fd) (vs fds : List Fd) {g : Fd}
    → (v.open_flag ≡ 0) ⊎ (v ≡ f)
    → ((j : ℕ) → get_elem? vs j ≡ some g → ClosedOr fds j g)
    → (j : ℕ) → get_elem? (v ∷ vs) j ≡ some g
    → ClosedOr (f ∷ fds) j g
cons-ClosedOr v f vs fds (inl shut) rest zero here =
    inl (subst (λ (w : Fd). w.open_flag ≡ 0) (some_inj.0 here) shut)
cons-ClosedOr v f vs fds (inr same) rest zero here = inr (ap some (sym same) ∙ here)
cons-ClosedOr v f vs fds first rest (suc j) later = rest j later

close_fds-each :
    (fds : List Fd) (files : List OpenFile) (j : ℕ) {g : Fd}
    → get_elem? (close_fds fds files).0 j ≡ some g
    → ClosedOr fds j g
unfolding close_fds
close_fds-each [] files j at = inr at
close_fds-each (f ∷ fds) files j at = elim (Bool-cases (f.open_flag == 1)) [
  | inl e ↦
      let rest = (close_fds fds (del_file f.ofptr files)).0 in
      let shape : (close_fds (f ∷ fds) files).0 ≡ closed_fd ∷ rest = rw e refl in
      cons-ClosedOr closed_fd f rest fds (inl refl)
        (λ i. close_fds-each fds (del_file f.ofptr files) i) j
        (ap (λ l. get_elem? l j) (sym shape) ∙ at)
  | inr e ↦
      let rest = (close_fds fds files).0 in
      let shape : (close_fds (f ∷ fds) files).0 ≡ f ∷ rest = rw e refl in
      cons-ClosedOr f f rest fds (inr refl) (λ i. close_fds-each fds files i) j
        (ap (λ l. get_elem? l j) (sym shape) ∙ at)
]

close_fds-Fds :
    (n : ℕ) (fds : List Fd) (files : List OpenFile) → Fds n fds → Fds n (close_fds fds files).0
close_fds-Fds n fds files h = record {
  count = (close_fds-length fds files).0 ∙ h.count;
  each = λ i f at. elim (close_fds-each fds files i at) [
    | inl shut ↦ inl shut
    | inr old ↦ h.each i f old
  ];
}

-- The tables are in order after `sys_exit`, where it finds a process to enter.
abbrev pub AfterExit : Option Exited → Type 0
AfterExit none = Unit
AfterExit (some x) = Tables (length x.files) x.kernel

pub sys_exit-AfterExit :
    (k : Kernel) (files : List OpenFile) (pages : Pages)
    → Tables (length files) k
    → AfterExit (sys_exit k files pages)
unfolding sys_exit
sys_exit-AfterExit k files pages h =
    elim (Option-cases (get_pcb (current_pid k) 0 none k.pcblist)) [
      | inl e ↦ rw (AfterExit, sys_exit, e) tt
      | inr (i, e) ↦ elim (Option-cases (get_elem? k.pcblist i)) [
        | inl missing ↦ rw (AfterExit, sys_exit, e, missing) tt
        | inr (p, there) ↦
            rw (sys_exit, e, there) (left i p (All-at (PcbFds _) k.pcblist i h.every there))
      ]
    ]
  where
    left : (i : ℕ) (p : Pcb) → PcbFds (length files) p → AfterExit (leave k files pages i p)
    left i p fds =
        let after = close_fds p.fdlist files in
        let same = (close_fds-length p.fdlist files).1 in
        let gone = record k { pcblist = update i (exited_pcb after.0) k.pcblist } in
        let kept =
          Tables-update (length files) i k.nextpid (exited_pcb after.0) k
            (λ q old. close_fds-Fds (length files) p.fdlist files fds) h in
        elim (Option-cases (first_index (λ q. is_runnable q.pstate) 0 gone.pcblist)) [
          | inl e ↦ rw (AfterExit, leave, e) tt
          | inr (next, e) ↦
              rw (AfterExit, leave, e)
                (subst (λ (n : ℕ). Tables n (record gone { current = next })) (sym same)
                  (entered _ (length files) next gone e kept))
        ]

pub do_timer_handler-Tables :
    (n : ℕ) (ptr : IntrContext) (k : Kernel) → Tables n k → Tables n (do_timer_handler ptr k).0
unfolding do_timer_handler swap_states save
do_timer_handler-Tables n ptr k h =
    elim (Option-cases (first_index (λ p. is_runnable p.pstate) 0 k.pcblist)) [
      | inl e ↦ rw (do_timer_handler, e) h
      | inr (i, e) ↦
          let now = entered _ n i k e h in
          let one =
            Tables-update n k.current k.nextpid (with_state RunState.runnable)
              (record k { current = i }) (λ q fds. fds) now in
          let two =
            Tables-update n i k.nextpid (with_state RunState.running) _ (λ q fds. fds) one in
          rw (do_timer_handler, e)
            (Tables-update n k.current k.nextpid (save ptr) _ (λ q fds. fds) two)
    ]

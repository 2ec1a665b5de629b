-- ===== src/Process/Sched.antt =====
-- The timer's handler in interrupt.c and `schedule` in process.c: the first runnable process runs.
pub mod Switch
use nbos.Base.{
  ℕ, zero, suc, ◌+◌, ◌-◌, ◌%◌, ◌^◌, ◌≤◌, ◌<◌, ◌≡◌, ◌≢◌, refl, arith, Bool, true, false, ◌==◌,
  Option, none, some, List, [], ◌∷◌, length, get_elem?, Bool-cases, Option-cases, inl, inr, ap, sym,
  ◌∙◌,
}
use native.Mathlib.Decide.{ℕ_discrete}
use nbos.Process.{
  Pcb, Kernel, RunState, Context, IntrContext, is_runnable, first_index, update, current_pid,
}
use nbos.Process.Table.{get_elem?-update_self, get_elem?-update_ne, first_index-found}

-- What a switch does besides its writes to the process blocks.
pub data Effect : Type 0 where
  print_pid : ℕ → Effect
  load_cr3 : ℕ → Effect
  switch_ctx : Context → Effect

-- `VIR_2_PHY` on 32 bits.
abbrev pub vir_to_phy : ℕ → ℕ
vir_to_phy x = (x + 2 ^ 32 - 0xc000_0000) % 2 ^ 32

-- The registers that the timer's handler saves.
unfoldable pub save : IntrContext → Pcb → Pcb
save ptr p = record p {
  ctx = record p.ctx {
    eip = ptr.eip;
    eflags = ptr.eflags;
    edi = ptr.edi;
    eax = ptr.eax;
    ecx = ptr.ecx;
    esp = ptr.esp;
    nesp = ptr.esp_current;
    ebp = ptr.ebp;
    ebx = ptr.ebx;
    edx = ptr.edx;
    esi = ptr.esi;
  };
}

abbrev pub with_state : RunState → Pcb → Pcb
with_state s p = record p { pstate = s }

-- The last process becomes runnable, and then process `i` running.
unfoldable pub swap_states : ℕ → ℕ → List Pcb → List Pcb
swap_states last i ps =
    update i (with_state RunState.running) (update last (with_state RunState.runnable) ps)

-- The effects that end a switch: the page directory and the context of process `i`.
unfoldable pub enter : ℕ → List Pcb → List Effect
enter i ps = elim (get_elem? ps i) [
  | none ↦ []
  | some p ↦ load_cr3 (vir_to_phy p.pagedir) ∷ switch_ctx p.ctx ∷ []
]

-- `do_timer_handler`. It prints the pid of the process that it switches to, before the switch: an effect here,
-- for which the screen's lock is taken to be free.
unfoldable pub do_timer_handler : IntrContext → Kernel → Kernel × List Effect
do_timer_handler ptr k = elim (first_index (λ p. is_runnable p.pstate) 0 k.pcblist) [
  | none ↦ (k, [])
  | some i ↦
      let ps = update k.current (save ptr) (swap_states k.current i k.pcblist) in
      let now = record k { pcblist = ps; current = i } in
      (now, print_pid (current_pid now) ∷ enter i ps)
]

-- `schedule`: the same without saving the registers.
unfoldable pub schedule : Kernel → Kernel × List Effect
schedule k = elim (first_index (λ p. is_runnable p.pstate) 0 k.pcblist) [
  | none ↦ (k, [])
  | some i ↦
      let ps = swap_states k.current i k.pcblist in
      (record k { pcblist = ps; current = i }, enter i ps)
]

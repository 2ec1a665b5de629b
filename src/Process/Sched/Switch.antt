-- ===== src/Process/Sched/Switch.antt =====
-- What a switch leaves: one process running, and the interrupted one saved.
use nbos.Base.{
  ℕ, suc, ◌+◌, ◌≡◌, ◌≢◌, refl, arith, true, Option, none, some, List, [], get_elem?, Option-cases,
  inl, inr, ap, sym, ◌∙◌,
}
use mathlib.Core.Path.{subst}
use native.Mathlib.Decide.{ℕ_discrete}
use nbos.Process.{Pcb, Kernel, RunState, Context, IntrContext, is_runnable, first_index}
use nbos.Process.Table.{get_elem?-update_self, get_elem?-update_ne, first_index-found}
use nbos.Process.Sched.{Effect, save, with_state, swap_states, do_timer_handler}

abbrev pub state_of : Option Pcb → Option RunState
state_of none = none
state_of (some p) = some p.pstate

-- The state of process `j`.
abbrev pub state_at : List Pcb → ℕ → Option RunState
state_at ps j = state_of (get_elem? ps j)

-- The current process is running, and no other process is.
pub record OneRunning (k : Kernel) : Type 0 where
  pub runs : state_at k.pcblist k.current ≡ some RunState.running
  pub alone : (j : ℕ) → j ≢ k.current → state_at k.pcblist j ≢ some RunState.running

module _ (ps : List Pcb) (last i : ℕ) {p q : Pcb} (at_i : get_elem? ps i ≡ some p)
    (at_last : get_elem? ps last ≡ some q) (ne : last ≢ i) where
  pub swap_states-next : get_elem? (swap_states last i ps) i ≡ some (with_state RunState.running p)
  unfolding swap_states
  swap_states-next =
      get_elem?-update_self i _ _
        (get_elem?-update_ne last i _ ps (λ (e : i ≡ last). ne (sym e)) ∙ at_i)

  pub swap_states-last :
      get_elem? (swap_states last i ps) last ≡ some (with_state RunState.runnable q)
  unfolding swap_states
  swap_states-last = get_elem?-update_ne i last _ _ ne ∙ get_elem?-update_self last _ ps at_last

swap_states-other :
    (ps : List Pcb) (last i j : ℕ)
    → j ≢ last
    → j ≢ i
    → get_elem? (swap_states last i ps) j ≡ get_elem? ps j
unfolding swap_states
swap_states-other ps last i j nl ni =
    get_elem?-update_ne i j _ _ ni ∙ get_elem?-update_ne last j _ ps nl

runnable-state : (p : Pcb) → is_runnable p.pstate ≡ true → p.pstate ≡ RunState.runnable
runnable-state p h = ground arith

-- The current process is not the one that the search finds.
current-ne :
    {k : Kernel}
    → OneRunning k
    → {i : ℕ} {p : Pcb} → get_elem? k.pcblist i ≡ some p
    → is_runnable p.pstate ≡ true
    → k.current ≢ i
current-ne {k} one {i} {p} at h e =
    let stated = ap state_of (ap (get_elem? k.pcblist) e ∙ at) in
    cc (one.runs, stated, runnable-state p h)

current-some : {k : Kernel} → OneRunning k → (q : Pcb) × (get_elem? k.pcblist k.current ≡ some q)
current-some {k} one = elim (Option-cases (get_elem? k.pcblist k.current)) [
  | inl none_there ↦ cc (one.runs, ap state_of none_there)
  | inr found ↦ found
]

-- The process `p` has become `p'`, in the state given, and is the same process otherwise.
pub record Turned (state : RunState) (p p' : Pcb) : Type 0 where
  pub now : p'.pstate ≡ state
  pub same_pid : p'.pid ≡ p.pid
  pub same_father : p'.father_pid ≡ p.father_pid
  pub same_pagedir : p'.pagedir ≡ p.pagedir
  pub same_fds : p'.fdlist ≡ p.fdlist

-- A context that holds the registers of an interrupt, without the selectors.
pub record Holds (c : Context) (ptr : IntrContext) : Type 0 where
  pub eip : c.eip ≡ ptr.eip
  pub eflags : c.eflags ≡ ptr.eflags
  pub esp : c.esp ≡ ptr.esp
  pub nesp : c.nesp ≡ ptr.esp_current
  pub ebp : c.ebp ≡ ptr.ebp
  pub eax : c.eax ≡ ptr.eax
  pub ebx : c.ebx ≡ ptr.ebx
  pub ecx : c.ecx ≡ ptr.ecx
  pub edx : c.edx ≡ ptr.edx
  pub esi : c.esi ≡ ptr.esi
  pub edi : c.edi ≡ ptr.edi

pub save-Turned :
    (ptr : IntrContext) (q : Pcb)
    → Turned RunState.runnable q (save ptr (with_state RunState.runnable q))
unfolding save
save-Turned ptr q = record {
  now = refl;
  same_pid = refl;
  same_father = refl;
  same_pagedir = refl;
  same_fds = refl;
}

pub save-Holds : (ptr : IntrContext) (q : Pcb) → Holds (save ptr q).ctx ptr
unfolding save
save-Holds ptr q = record {
  eip = refl;
  eflags = refl;
  esp = refl;
  nesp = refl;
  ebp = refl;
  eax = refl;
  ebx = refl;
  ecx = refl;
  edx = refl;
  esi = refl;
  edi = refl;
}

-- Let one process run, and some other be runnable. Then the timer's handler makes the first such process
-- `i` the current one and running, with its context, id, father, page directory and descriptors as they
-- were; the interrupted process becomes runnable, with the interrupted registers, all but the selectors,
-- in its context, and its id, father, page directory and descriptors as they were; every other process `j`
-- stays as it is.
pub do_timer_handler_switch :
    (ptr : IntrContext) (k : Kernel) (i j : ℕ)
    → OneRunning k
    → first_index (λ p. is_runnable p.pstate) 0 k.pcblist ≡ some i
    → j ≢ i
    → j ≢ k.current
    → (p q p' q' : Pcb) × (get_elem? k.pcblist i ≡ some p)
      × (get_elem? k.pcblist k.current ≡ some q)
      × ((do_timer_handler ptr k).0.current ≡ i)
      × ((get_elem? (do_timer_handler ptr k).0.pcblist i ≡ some p')
          × Turned RunState.running p p'
          × (p'.ctx ≡ p.ctx))
      × ((get_elem? (do_timer_handler ptr k).0.pcblist k.current ≡ some q')
          × Turned RunState.runnable q q'
          × Holds q'.ctx ptr)
      × (get_elem? (do_timer_handler ptr k).0.pcblist j ≡ get_elem? k.pcblist j)
unfolding do_timer_handler
do_timer_handler_switch ptr k i j one found ni nc =
    let (p, at, ready) = first_index-found _ k.pcblist found in
    let (q, at_last) = current-some one in
    let ne = current-ne one at ready in
    rw (found, do_timer_handler)
      (
        p,
        q,
        with_state RunState.running p,
        save ptr (with_state RunState.runnable q),
        at,
        at_last,
        refl,
        (
          get_elem?-update_ne k.current i _ _ (λ (e : i ≡ k.current). ne (sym e))
              ∙ swap_states-next k.pcblist k.current i at at_last ne,
          record {
            now = refl;
            same_pid = refl;
            same_father = refl;
            same_pagedir = refl;
            same_fds = refl;
          },
          refl,
        ),
        (
          get_elem?-update_self k.current _ _
              (swap_states-last k.pcblist k.current i at at_last ne),
          save-Turned ptr q,
          save-Holds ptr (with_state RunState.runnable q),
        ),
        get_elem?-update_ne k.current j _ _ nc ∙ swap_states-other k.pcblist k.current i j nc ni,
      )

idle_handler :
    (ptr : IntrContext) (k : Kernel)
    → first_index (λ p. is_runnable p.pstate) 0 k.pcblist ≡ none
    → do_timer_handler ptr k ≡ (k, [])
unfolding do_timer_handler
idle_handler ptr k idle = rw (idle, do_timer_handler)

-- The timer's handler keeps the invariant that the current process is running and no other is.
pub do_timer_handler-OneRunning :
    (ptr : IntrContext) (k : Kernel) → OneRunning k → OneRunning (do_timer_handler ptr k).0
do_timer_handler-OneRunning ptr k one =
    elim (Option-cases (first_index (λ p. is_runnable p.pstate) 0 k.pcblist)) [
      | inl idle ↦
          subst OneRunning (sym (ap (λ (r : Kernel × List Effect). r.0) (idle_handler ptr k idle)))
            one
      | inr (i, found) ↦ switched i found
    ]
  where
    after : Kernel
    after = (do_timer_handler ptr k).0

    switched :
        (i : ℕ) → first_index (λ p. is_runnable p.pstate) 0 k.pcblist ≡ some i → OneRunning after
    switched i found =
        let (p, q, p', q', _, _, now, (next, runs, _), (last, waits, _), _) =
          do_timer_handler_switch ptr k i (suc (i + k.current)) one found (omega arith)
            (omega arith) in
        record {
          runs =
              subst (λ c. state_at after.pcblist c ≡ some RunState.running) (sym now)
                (ap state_of next ∙ ap some runs.now);
          alone = λ j ne h. elim (ℕ_discrete j k.current) [
            | yes e ↦ cc (h, ap (state_at after.pcblist) e, ap state_of last, waits.now)
            | no nc ↦
                let others =
                  do_timer_handler_switch ptr k i j one found (λ e. ne (e ∙ sym now)) nc in
                one.alone j nc (sym (ap state_of others.9) ∙ h)
          ];
        }

-- ===== src/Process/Starve.antt =====
-- What the choice of the first runnable process means over many ticks.
use nbos.Base.{ℕ, suc, ◌%◌, ◌≡◌, ◌∙◌, refl, arith, List, [], ◌∷◌, length}
use nbos.Process.{Pcb, Kernel, RunState, IntrContext, first_index, update}
use nbos.Process.Sched.{do_timer_handler, swap_states, save, with_state}

-- The timer's interrupts in a row, each with the registers that it finds.
unfoldable pub ticks : List IntrContext → Kernel → Kernel
ticks [] k = k
ticks (ptr ∷ ptrs) k = ticks ptrs (do_timer_handler ptr k).0

abbrev pub table : List Pcb → ℕ → ℕ → Kernel
table ps nextpid current = record { pcblist = ps; nextpid = nextpid; current = current }

module _ (ps : List Pcb) (nextpid : ℕ) where
  mutual
    unfolding ticks do_timer_handler swap_states save first_index update

    from_zero :
        (ptrs : List IntrContext) (p q : Pcb)
        → p.pstate ≡ RunState.running
        → q.pstate ≡ RunState.runnable
        → (ticks ptrs (table (p ∷ q ∷ ps) nextpid 0)).current ≡ length ptrs % 2
    from_zero [] p q hp hq = refl
    from_zero (ptr ∷ ptrs) p q hp hq =
        rw (hp, hq)
          (from_one ptrs (save ptr (with_state RunState.runnable p)) (with_state RunState.running q)
            refl refl)

    from_one :
        (ptrs : List IntrContext) (p q : Pcb)
        → p.pstate ≡ RunState.runnable
        → q.pstate ≡ RunState.running
        → (ticks ptrs (table (p ∷ q ∷ ps) nextpid 1)).current ≡ suc (length ptrs) % 2
    from_one [] p q hp hq = refl
    from_one (ptr ∷ ptrs) p q hp hq =
        let round : length ptrs % 2 ≡ suc (suc (length ptrs)) % 2 = omega arith in
        rw (hp) (
          from_zero ptrs (with_state RunState.running p) (save ptr (with_state RunState.runnable q))
            refl refl)
        ∙ round

-- Let the first process of the list be the current one and running, and the second one runnable. As long as
-- nothing but the timer interrupts them, each tick switches from one of these two to the other: after an
-- even number of ticks the first one is the current process, and after an odd number the second one, however
-- many processes stand behind them.
pub ticks_starve :
    (ps : List Pcb) (nextpid : ℕ) (ptrs : List IntrContext) (p q : Pcb)
    → p.pstate ≡ RunState.running
    → q.pstate ≡ RunState.runnable
    → (ticks ptrs (table (p ∷ q ∷ ps) nextpid 0)).current ≡ length ptrs % 2
ticks_starve ps nextpid ptrs p q hp hq = from_zero ps nextpid ptrs p q hp hq

-- ===== src/Start/Ready.antt =====
-- What `main` leaves for the first interrupt: the invariants that the handlers keep.
use nbos.Base.{
  Bool, ℕ, zero, suc, ◌≡◌, ◌≢◌, refl, ap, sym, ◌∙◌, none, some, List, [], ◌∷◌, map, length,
  Option-cases, inl, inr,
}
use mathlib.Core.Option.{some_inj}
use mathlib.Core.Path.{subst}
use nbos.File.Format.{init_file}
use nbos.Keyboard.{Keyboard}
use nbos.Memory.Pages.{Pages, init_memory}
use nbos.File.Disk.{Disk}
use nbos.Screen.{Screen}
use nbos.Process.{Pcb, RunState, init_pcb, new_pcb, pcb_max, update}
use nbos.Process.Sched.Switch.{OneRunning, state_at}
use nbos.Start.Booted.{started, main-started}
use nbos.Start.Main.{Image, Boot, main, as_system}
use nbos.System.Interrupts.{InOrder}
use nbos.System.Reach.{booted, file_max_in_sys, Reach-InOrder}

all_free : (ps : List Pcb) (j : ℕ) → state_at (map new_pcb ps) j ≢ some RunState.running
all_free [] j = λ e. cc e
all_free (p ∷ ps) zero = λ e. cc e
all_free (p ∷ ps) (suc j) = all_free ps j

init_pcb-OneRunning :
    (ps : List Pcb) (nextpid pagedir : ℕ)
    → length ps ≡ pcb_max
    → OneRunning (init_pcb ps nextpid pagedir)
unfolding init_pcb update
init_pcb-OneRunning [] nextpid pagedir count = cc count
init_pcb-OneRunning (p ∷ ps) nextpid pagedir count = record { runs = refl; alone = others }
  where
    others :
        (j : ℕ)
        → j ≢ 0
        → state_at (init_pcb (p ∷ ps) nextpid pagedir).pcblist j ≢ some RunState.running
    others zero ne = absurd (ne refl)
    others (suc j) ne = all_free ps j

-- What `main` returns is `started`, for some memory and disk.
abbrev Started : Image → Boot → Boot → Type 0
Started l b b' =
    (s : Screen) × (pages : Pages) × (disk : Disk) × (s.video_lock ≡ 0)
    × (b' ≡ started l b s pages disk)

main-Started :
    (l : Image) (b b' : Boot) → b.screen.video_lock ≡ 0 → main l b ≡ some b' → Started l b b'
main-Started l b b' free run =
    let (s, unlocked, all) = main-started l b free in
    elim (Option-cases (init_memory l.headers b.pages)) [
      | inl missing ↦ let lost : main l b ≡ none = all ∙ rw missing in cc (lost, run)
      | inr (pages, memory) ↦ elim (Option-cases (init_file l.behind b.disk)) [
        | inl missing ↦ let lost : main l b ≡ none = all ∙ rw (memory, missing) in cc (lost, run)
        | inr (disk, formatted) ↦
            let done : main l b ≡ some (started l b s pages disk) = all ∙ rw (memory, formatted) in
            (s, pages, disk, unlocked, some_inj.0 (sym run ∙ done))
      ]
    ]

-- With the lock of the screen free, the tables of their declared sizes and `nextpid` still 1, whatever else
-- they hold, a `main` that comes to its end leaves the first process running and no other, the descriptors
-- of all processes in order, and the lock of the screen free.
pub main-ready :
    (l : Image) (b b' : Boot) (tables_at : ℕ → Bool) (keyboard : Keyboard)
    → b.screen.video_lock ≡ 0
    → length b.kernel.pcblist ≡ pcb_max
    → length b.file_list ≡ file_max_in_sys
    → b.kernel.nextpid ≡ 1
    → main l b ≡ some b'
    → OneRunning b'.kernel
      × (b'.kernel.current ≡ 0)
      × InOrder (as_system tables_at b' keyboard)
      × (b'.screen.video_lock ≡ 0)
unfolding init_pcb
main-ready l b b' tables_at keyboard free processes files first run =
    let (s, pages, disk, unlocked, same) = main-Started l b b' free run in
    let t = as_system tables_at (started l b s pages disk) keyboard in
    let ready : OneRunning t.kernel × (t.kernel.current ≡ 0) × InOrder t × (s.video_lock ≡ 0) = (
      init_pcb-OneRunning b.kernel.pcblist b.kernel.nextpid l.pagedir processes,
      refl,
      Reach-InOrder
          (booted t b.kernel.pcblist l.pagedir b.file_list processes files
            (ap (λ n. init_pcb b.kernel.pcblist n l.pagedir) first) refl)
          tt,
      unlocked,
    ) in
    subst
      (λ (c : Boot).
        OneRunning c.kernel
        × (c.kernel.current ≡ 0)
        × InOrder (as_system tables_at c keyboard)
        × (c.screen.video_lock ≡ 0))
      (sym same) ready

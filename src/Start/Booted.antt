-- ===== src/Start/Booted.antt =====
-- What `main` leaves when it opens the interrupts.
use nbos.Base.{Bool, ℕ, ◌≡◌, refl, Option, some, List, length, Option-cases, inl, inr, ◌++◌, ap}
use nbos.Base.Partial.{◌>>=◌}
use nbos.File.Disk.{Disk}
use nbos.File.Format.{init_file}
use nbos.File.Table.{init_open_file_list}
use nbos.Interrupt.Setup.{init_interrupt, init_pic}
use nbos.Keyboard.{Keyboard}
use nbos.Memory.Pages.{Pages, init_memory}
use nbos.Process.{init_pcb, pcb_max}
use nbos.Screen.{Screen, clear_screen, clear_cells, set_cursor, put_text, print}
use nbos.Start.Descriptors.{init_tss, kcode_selector}
use nbos.Start.Main.{
  Image, Boot, boot_memory, boot_pic, boot_interrupt, boot_tss, boot_file, boot_pcb, main,
  as_system,
}
use nbos.Start.Texts.{
  kernel_is_working, initial_memory, init_memory_done, initial_pic, init_pic_done,
  initial_interrupt, init_interrupt_done, initial_tss, init_tss_done, initial_file_system,
  initial_file_sys_done, initial_pcb, initial_pcb_done,
}
use nbos.System.Reach.{Reach, booted, file_max_in_sys}

-- With the lock of the screen free, a text is printed, and the lock is free again.
print_free :
    (text : List ℕ) (s : Screen)
    → s.video_lock ≡ 0
    → (s' : Screen) × (print text s ≡ some s') × (s'.video_lock ≡ 0)
unfolding print
print_free text s free = (
  record (put_text text (record s { video_lock = 1 })) { video_lock = 0 },
  rw (print, free) refl,
  refl,
)

clear_free :
    (s : Screen)
    → s.video_lock ≡ 0
    → (s' : Screen) × (clear_screen s ≡ some s') × (s'.video_lock ≡ 0)
unfolding clear_screen
clear_free s free = (
  record (set_cursor 0 (clear_cells 2000 0 (record s { video_lock = 1 }))) { video_lock = 0 },
  rw (clear_screen, free) refl,
  refl,
)

-- A part's initialisation prints its two lines, and changes the kernel as `f` says.
abbrev Announces : (Boot → Option Boot) → (Boot → Boot) → Type 0
Announces boot f =
    (b : Boot)
    → b.screen.video_lock ≡ 0
    → (s : Screen) × (boot b ≡ some (record (f b) { screen = s })) × (s.video_lock ≡ 0)

boot_pic-Announces : Announces boot_pic (λ b. record b { ports = b.ports ++ init_pic })
unfolding boot_pic
boot_pic-Announces b free =
    let (s, e, f) = print_free initial_pic b.screen free in
    let (s', e', f') = print_free init_pic_done s f in (s', rw (boot_pic, e, e') refl, f')

boot_interrupt-Announces :
    (l : Image)
    → Announces
        (boot_interrupt l)
        (λ b. record b { interrupts = init_interrupt kcode_selector l.address l.idt_addr })
unfolding boot_interrupt
boot_interrupt-Announces l b free =
    let (s, e, f) = print_free initial_interrupt b.screen free in
    let (s', e', f') = print_free init_interrupt_done s f in
    (s', rw (boot_interrupt, e, e') refl, f')

boot_tss-Announces :
    (l : Image)
    → Announces (boot_tss l) (λ b. record b {
      tss = (init_tss l.pagedir l.stack l.tss_base b.tss b.gdt).0;
      gdt = (init_tss l.pagedir l.stack l.tss_base b.tss b.gdt).1;
    })
unfolding boot_tss
boot_tss-Announces l b free =
    let (s, e, f) = print_free initial_tss b.screen free in
    let (s', e', f') = print_free init_tss_done s f in (s', rw (boot_tss, e, e') refl, f')

boot_pcb-Announces :
    (l : Image)
    → Announces
        (boot_pcb l)
        (λ b. record b { kernel = init_pcb b.kernel.pcblist b.kernel.nextpid l.pagedir })
unfolding boot_pcb
boot_pcb-Announces l b free =
    let (s, e, f) = print_free initial_pcb b.screen free in
    let (s', e', f') = print_free initial_pcb_done s f in (s', rw (boot_pcb, e, e') refl, f')

-- The kernel with every part initialised, for the memory and the disk that the initialisation leaves.
abbrev pub started : Image → Boot → Screen → Pages → Disk → Boot
started l b screen pages disk = record b {
  screen = screen;
  pages = pages;
  ports = b.ports ++ init_pic;
  interrupts = init_interrupt kcode_selector l.address l.idt_addr;
  tss = (init_tss l.pagedir l.stack l.tss_base b.tss b.gdt).0;
  gdt = (init_tss l.pagedir l.stack l.tss_base b.tss b.gdt).1;
  disk = disk;
  file_list = init_open_file_list b.file_list;
  kernel = init_pcb b.kernel.pcblist b.kernel.nextpid l.pagedir;
}

boot_memory-lem :
    (l : Image) (b : Boot)
    → b.screen.video_lock ≡ 0
    → (s : Screen) × (boot_memory l b ≡ (
        init_memory l.headers b.pages >>= (λ pages. some (record b { screen = s; pages = pages }))))
      × (s.video_lock ≡ 0)
unfolding boot_memory
boot_memory-lem l b free =
    let (s, e, f) = print_free initial_memory b.screen free in
    let (s', e', f') = print_free init_memory_done s f in
    (
      s',
      elim (Option-cases (init_memory l.headers b.pages)) [
        | inl missing ↦ rw (boot_memory, e, missing) refl
        | inr (pages, made) ↦ rw (boot_memory, e, made, e') refl
      ],
      f',
    )

boot_file-lem :
    (l : Image) (b : Boot)
    → b.screen.video_lock ≡ 0
    → (s : Screen) × (boot_file l b ≡ (
        init_file l.behind b.disk >>= (λ disk.
          some
            (record b { screen = s; disk = disk; file_list = init_open_file_list b.file_list }))))
      × (s.video_lock ≡ 0)
unfolding boot_file
boot_file-lem l b free =
    let (s, e, f) = print_free initial_file_system b.screen free in
    let (s', e', f') = print_free initial_file_sys_done s f in
    (
      s',
      elim (Option-cases (init_file l.behind b.disk)) [
        | inl missing ↦ rw (boot_file, e, missing) refl
        | inr (disk, made) ↦ rw (boot_file, e, made, e') refl
      ],
      f',
    )

-- With the lock of the screen free, `main` fails only where `init_memory` or `init_file` does; otherwise
-- it leaves every part initialised, and the lock free.
pub main-started :
    (l : Image) (b : Boot)
    → b.screen.video_lock ≡ 0
    → (screen : Screen) × (screen.video_lock ≡ 0)
      × (main l b ≡ (
          init_memory l.headers b.pages >>= (λ pages.
            init_file l.behind b.disk >>= (λ disk. some (started l b screen pages disk)))))
unfolding main
main-started l b free =
    let (s0, e0, f0) = clear_free b.screen free in
    let (s1, e1, f1) = print_free kernel_is_working s0 f0 in
    let (s2, e2, f2) = boot_memory-lem l (record b { screen = s1 }) f1 in
    elim (Option-cases (init_memory l.headers b.pages)) [
      | inl missing ↦ (s2, f2, rw (main, e0, e1, e2, missing) refl)
      | inr (pages, memory) ↦
          let b2 = record b { screen = s2; pages = pages } in
          let (s3, e3, f3) = boot_pic-Announces b2 f2 in
          let b3 = record b2 { screen = s3; ports = b.ports ++ init_pic } in
          let (s4, e4, f4) = boot_interrupt-Announces l b3 f3 in
          let b4 = record b3 {
            screen = s4;
            interrupts = init_interrupt kcode_selector l.address l.idt_addr;
          } in
          let (s5, e5, f5) = boot_tss-Announces l b4 f4 in
          let b5 = record b4 {
            screen = s5;
            tss = (init_tss l.pagedir l.stack l.tss_base b.tss b.gdt).0;
            gdt = (init_tss l.pagedir l.stack l.tss_base b.tss b.gdt).1;
          } in
          let (s6, e6, f6) = boot_file-lem l b5 f5 in
          elim (Option-cases (init_file l.behind b.disk)) [
            | inl missing ↦ (s6, f6, rw (main, e0, e1, e2, memory, e3, e4, e5, e6, missing) refl)
            | inr (disk, formatted) ↦
                let b6 = record b5 {
                  screen = s6;
                  disk = disk;
                  file_list = init_open_file_list b.file_list;
                } in
                let (s7, e7, f7) = boot_pcb-Announces l b6 f6 in
                (s7, f7, rw (main, e0, e1, e2, memory, e3, e4, e5, e6, formatted, e7) refl)
          ]
    ]

-- What `main` leaves is a state from which the kernel's reachable states start, with `nextpid` still 1,
-- as process.c sets it, and tables of the declared sizes.
pub started-Reach :
    (l : Image) (b : Boot) (screen : Screen) (pages : Pages) (disk : Disk) (keyboard : Keyboard)
    (tables_at : ℕ → Bool)
    → length b.kernel.pcblist ≡ pcb_max
    → length b.file_list ≡ file_max_in_sys
    → b.kernel.nextpid ≡ 1
    → Reach (as_system tables_at (started l b screen pages disk) keyboard)
started-Reach l b screen pages disk keyboard tables_at processes files first =
    booted (as_system tables_at (started l b screen pages disk) keyboard) b.kernel.pcblist l.pagedir
      b.file_list processes files (ap (λ n. init_pcb b.kernel.pcblist n l.pagedir) first) refl

-- ===== src/Start/Main.antt =====
-- The calls of `main` in main.c up to `sti`, and what each part's `init` function does to the kernel.
use nbos.Base.{Bool, ℕ, Option, some, List, ◌++◌}
use nbos.Base.Partial.{◌>>=◌}
use nbos.Base.Bytes.{Bytes}
use nbos.File.Content.{OpenFile}
use nbos.File.Disk.{Disk}
use nbos.File.Format.{init_file}
use nbos.File.Table.{init_open_file_list}
use nbos.Interrupt.Setup.{Interrupts, Out, Stub, init_interrupt, init_pic}
use nbos.Keyboard.{Keyboard}
use nbos.Memory.Pages.{Pages, ProgramHeader, init_memory}
use nbos.Process.{Kernel, init_pcb}
use nbos.Screen.{Screen, clear_screen, print}
use nbos.Start.Descriptors.{GlobalDescriptor, TaskStruct, init_tss, kcode_selector}
use nbos.Start.Texts.{
  kernel_is_working, initial_memory, init_memory_done, initial_pic, init_pic_done,
  initial_interrupt, init_interrupt_done, initial_tss, init_tss_done, initial_file_system,
  initial_file_sys_done, initial_pcb, initial_pcb_done,
}
use nbos.System.{System}

-- Where the linker puts the tables, the entry points and the stack, the headers of the kernel's program,
-- and what the stack held.
pub record Image : Type 0 where
  pub pagedir : ℕ
  pub stack : ℕ
  pub tss_base : ℕ
  pub idt_addr : ℕ
  pub address : Stub → ℕ
  pub headers : List ProgramHeader
  pub behind : Bytes

-- What the kernel is made of while it starts; `ports` are the writes to the ports, in order.
pub record Boot : Type 0 where
  pub screen : Screen
  pub pages : Pages
  pub ports : List Out
  pub interrupts : Interrupts
  pub tss : TaskStruct
  pub gdt : List GlobalDescriptor
  pub disk : Disk
  pub file_list : List OpenFile
  pub kernel : Kernel

-- The whole of `init_memory`; `none` is a lock that is taken, or a program without a segment to load.
unfoldable pub boot_memory : Image → Boot → Option Boot
boot_memory l b = do
  s ← print initial_memory b.screen
  pages ← init_memory l.headers b.pages
  s' ← print init_memory_done s
  some (record b { screen = s'; pages = pages })

-- The whole of `init_pic`.
unfoldable pub boot_pic : Boot → Option Boot
boot_pic b = do
  s ← print initial_pic b.screen
  s' ← print init_pic_done s
  some (record b { screen = s'; ports = b.ports ++ init_pic })

-- The whole of `init_interrupt`.
unfoldable pub boot_interrupt : Image → Boot → Option Boot
boot_interrupt l b = do
  s ← print initial_interrupt b.screen
  s' ← print init_interrupt_done s
  some (record b { screen = s'; interrupts = init_interrupt kcode_selector l.address l.idt_addr })

-- The whole of `init_tss`.
unfoldable pub boot_tss : Image → Boot → Option Boot
boot_tss l b = do
  s ← print initial_tss b.screen
  let (tss, gdt) = init_tss l.pagedir l.stack l.tss_base b.tss b.gdt
  s' ← print init_tss_done s
  some (record b { screen = s'; tss = tss; gdt = gdt })

-- The whole of `init_file`.
unfoldable pub boot_file : Image → Boot → Option Boot
boot_file l b = do
  s ← print initial_file_system b.screen
  disk ← init_file l.behind b.disk
  s' ← print initial_file_sys_done s
  some (record b { screen = s'; disk = disk; file_list = init_open_file_list b.file_list })

-- The whole of `init_pcb`.
unfoldable pub boot_pcb : Image → Boot → Option Boot
boot_pcb l b = do
  s ← print initial_pcb b.screen
  s' ← print initial_pcb_done s
  some (record b { screen = s'; kernel = init_pcb b.kernel.pcblist b.kernel.nextpid l.pagedir })

-- `main`, up to the instruction `sti`.
unfoldable pub main : Image → Boot → Option Boot
main l b = do
  s ← clear_screen b.screen
  s' ← print kernel_is_working s
  b1 ← boot_memory l (record b { screen = s' })
  b2 ← boot_pic b1
  b3 ← boot_interrupt l b2
  b4 ← boot_tss l b3
  b5 ← boot_file l b4
  boot_pcb l b5

-- The kernel that the interrupts find.
abbrev pub as_system : (ℕ → Bool) → Boot → Keyboard → System
as_system tables_at b keyboard = record {
  tables_at = tables_at;
  kernel = b.kernel;
  file_list = b.file_list;
  disk = b.disk;
  screen = b.screen;
  keyboard = keyboard;
  pages = b.pages;
}

-- ===== src/Start/Tests.antt =====
-- The theorems on the start of the kernel at a concrete image.
use native.Mathlib.Omega.{arith}
use mathlib.Core.Path.{◌≡◌, refl}
use nbos.Base.{
  ◌-◌, ◌*◌, ◌/◌, ◌∙◌, Bool, Option, true, false, none, some, [], ◌∷◌, get_elem?, replicate,
}
use nbos.Interrupt.Setup.{all_unknown}
use nbos.Memory.Pages.{init_memory, kernel_end}
use nbos.Process.User.{ucode_selector, udata_selector}
use nbos.Start.Descriptors.{
  GlobalDescriptor, TaskStruct, fill_gdt, init_tss, kcode_selector, kdata_selector, tss_selector,
}
use nbos.Start.Selectors.{Flat, base_of, limit_of, privilege_of, init_tss-segments}
use nbos.Start.Main.{Image, Boot, main, as_system}
use nbos.File.Inodes.{
  read_super_block, write_super_block, read_inode, write_inode, alloc_inode, get_root_dir_inode,
  init_super_block, fill_inode, fill_block, init_inode_list,
}
use nbos.File.Bitmap.{
  free_byte, free_bit, get_free_block, update_data_block_bit, free_slot, find_free_block,
  alloc_block, init_data_block_bit,
}
use nbos.File.Layout.{encode_inode, decode_inode, encode_super, decode_super}
use nbos.Base.Bytes.{read32, write32, write_words, read_words}
use nbos.File.Directory.{path_copy, last_name, item_place, room_for, write_directory}
use nbos.Strings.{strsize, first_loop, findfirstsprt, count_loop, strcount}
use nbos.Memory.Copy.{put, memmov}
use nbos.File.Disk.{clear_block}
use nbos.File.Format.{create_root_dir, add_program, init_userpro, init_file}
use nbos.Start.Ready.{main-ready}
use nbos.Start.Booted.{started, main-started}
use nbos.Process.Sched.Switch.{OneRunning}
use nbos.System.Interrupts.{InOrder}
use nbos.Keyboard.{Keyboard}
use nbos.Base.Int.{pos}
use nbos.System.Tests.{zeros, block, shut, screen}

abbrev nothing : GlobalDescriptor
nothing = record {
  limit = 0;
  base_low = 0;
  base_mid = 0;
  attr_low = 0;
  attr_high = 0;
  base_high = 0;
}

abbrev empty_tss : TaskStruct
empty_tss = record {
  link = 0;
  esp0 = 0;
  ss0 = 0;
  esp1 = 0;
  ss1 = 0;
  esp2 = 0;
  ss2 = 0;
  cr3 = 0;
  eip = 0;
  eflags = 0;
  eax = 0;
  ecx = 0;
  edx = 0;
  ebx = 0;
  esp = 0;
  ebp = 0;
  esi = 0;
  edi = 0;
  es = 0;
  cs = 0;
  ss = 0;
  ds = 0;
  fs = 0;
  gs = 0;
  ldt = 0;
  t = 0;
  iomb = 0;
}

init_tss-segments_example :
    let gdt' =
      (init_tss 0xc010_0000 0xc011_0000 0xc012_3456 empty_tss (fill_gdt (replicate 6 nothing))).1 in
    (Flat gdt' kcode_selector
      × Flat gdt' kdata_selector
      × Flat gdt' ucode_selector
      × Flat gdt' udata_selector)
    × ((g : GlobalDescriptor) × (get_elem? gdt' (tss_selector / 8) ≡ some g)
        × (base_of g ≡ 0xc012_3456)
        × (privilege_of g ≡ 0)
        × (limit_of g ≡ 104 * 4096 - 1))
init_tss-segments_example =
    init_tss-segments 0xc010_0000 0xc011_0000 0xc012_3456 empty_tss (replicate 6 nothing) refl
      (omega arith)

abbrev image : Image
image = record {
  pagedir = 0xc010_0000;
  stack = 0xc011_0000;
  tss_base = 0xc012_3456;
  idt_addr = 0xc013_0000;
  address = λ stub. 0xc000_1000;
  headers = record { p_type = 1; p_vaddr = 0xc001_0000; p_memsize = 0x2_0000 } ∷ [];
  behind = zeros;
}

abbrev boot : Boot
boot = record {
  screen = screen;
  pages = record { mem = zeros; free_list = 0 };
  ports = [];
  interrupts =
      all_unknown (record { offset_low = 0; selector = 0; attribute = 0; offset_high = 0 }) 0;
  tss = empty_tss;
  gdt = replicate 6 nothing;
  disk = λ n. zeros;
  file_list = replicate 100 shut;
  kernel = record { pcblist = replicate 20 block; nextpid = 1; current = 0 };
}

abbrev keyboard : Keyboard
keyboard = record { key_buffer = zeros; offset = pos 0; status_shift = 0 }

abbrev is_some {ℓ} : {A : Type ℓ} → Option A → Bool
is_some none = false
is_some (some x) = true

is_some_at {ℓ} : {A : Type ℓ} (o : Option A) → is_some o ≡ true → (x : A) × (o ≡ some x)
is_some_at none h = cc h
is_some_at (some x) h = (x, refl)

-- `init_file` on a disk of zeros, and `init_memory` for a kernel of one segment.
formats : is_some (init_file zeros (λ n. zeros)) ≡ true
unfolding add_program alloc_block alloc_inode clear_block count_loop create_root_dir decode_inode
    decode_super encode_inode encode_super fill_block fill_inode find_free_block findfirstsprt
    first_loop free_bit free_byte free_slot get_free_block get_root_dir_inode init_data_block_bit
    init_file init_inode_list init_super_block init_userpro item_place last_name memmov path_copy
    put read32 read_inode read_super_block read_words room_for strcount strsize
    update_data_block_bit write32 write_directory write_inode write_super_block write_words
formats = refl

has_segment : is_some (init_memory image.headers boot.pages) ≡ true
unfolding init_memory kernel_end
has_segment = refl

-- `main` comes to its end.
main_ends : (b : Boot) × (main image boot ≡ some b)
main_ends =
    let (s, free, all) = main-started image boot refl in
    let (pages, memory) = is_some_at (init_memory image.headers boot.pages) has_segment in
    let (disk, formatted) = is_some_at (init_file image.behind boot.disk) formats in
    (started image boot s pages disk, all ∙ rw (memory, formatted))

main-ready_example :
    OneRunning main_ends.0.kernel
    × (main_ends.0.kernel.current ≡ 0)
    × InOrder (as_system (λ a. false) main_ends.0 keyboard)
    × (main_ends.0.screen.video_lock ≡ 0)
main-ready_example =
    main-ready image boot main_ends.0 (λ a. false) keyboard refl refl refl refl main_ends.1

-- ===== src/Syscall/Tests.antt =====
-- The theorems on the system calls at a concrete machine.
use native.Mathlib.Omega.{arith}
use mathlib.Core.Path.{◌≡◌, refl}
use nbos.Base.{
  List, ℕ, zero, suc, ◌+◌, ◌-◌, ◌^◌, ◌%◌, ◌≤◌, ◌<◌, ◌≢◌, inl, inr, some, none, [], ◌∷◌, ◌==◌,
  if◌then◌else◌, replicate, get_elem?,
}
use nbos.Base.Bytes.{Bytes, AllWords, read32, write32, read_words, write_words, read16, write8}
use nbos.Base.Int.{pos}
use nbos.File.Disk.{Disk, sector_of, k_readsector, write_block, clear_block, k_writesector}
use nbos.File.Layout.{
  Inode, InodeFits, SuperBlock, encode_inode, encode_super, decode_inode, decode_super, inode_words,
  super_words,
}
use nbos.File.Inodes.{
  read_inode, read_super_block, write_super_block, get_root_dir_inode, alloc_inode,
}
use nbos.File.Bitmap.{
  alloc_block, free_slot, find_free_block, get_free_block, free_byte, free_bit, bit_set, updated,
  update_data_block_bit, block_busy,
}
use nbos.File.Content.{OpenFile}
use nbos.File.Content.Refine.{Mapped, block_at}
use nbos.File.Directory.{slash, seek_file_inode}
use nbos.File.Directory.Missing.{seek_file_inode-missing}
use nbos.File.Directory.Paths.{IsRootFile}
use nbos.File.Directory.Lookup.{NameAt, OneBlock}
use nbos.File.Directory.Created.{RootBlock}
use nbos.File.Table.{sys_close, get_min_fd, min_fd_loop, set_open_file_list, last_closed, entry_of}
use nbos.Process.{Context, Fd, Pcb, Kernel, IntrContext, RunState}
use nbos.Screen.{Screen}
use nbos.Keyboard.{Keyboard}
use nbos.Syscall.Close.{sys_close-closed}
use nbos.Syscall.{
  closed, Machine, ret, opened, entry, sys_write, sys_read, sys_open, sys_creat, o_rdwr,
}
use nbos.Syscall.ReadWrite.{Call, RegularFile, sys_read-sys_write}
use nbos.Syscall.Open.{sys_open-opened, sys_open-missing}
use nbos.Syscall.Create.{Apart, sys_creat-opened}

abbrev zeros : Bytes
zeros k = 0

abbrev context : Context
context = record {
  edi = 0;
  esi = 0;
  ebp = 0;
  nesp = 0;
  ebx = 0;
  edx = 0;
  ecx = 0;
  eax = 0;
  gs = 0;
  fs = 0;
  es = 0;
  ds = 0;
  eip = 0;
  cs = 0;
  eflags = 0;
  esp = 0;
  ss = 0;
}

abbrev call : ℕ → ℕ → ℕ → IntrContext
call b c d = record {
  edi = 0;
  esi = 0;
  ebp = 0;
  esp_current = 0;
  ebx = b;
  edx = d;
  ecx = c;
  eax = 0;
  gs = 0;
  fs = 0;
  es = 0;
  ds = 0;
  inter_no = 0;
  error_code = 0;
  eip = 0;
  cs = 0;
  eflags = 0;
  esp = 0;
  ss = 0;
}

abbrev root_inode : Inode
root_inode = record {
  size = 28;
  atime = 0;
  mtime = 0;
  ctime = 0;
  mode = 1;
  next_inode_block_no = 0;
  next_inode_offset = 0;
  my_inode_block_no = 1;
  my_inode_offset = 0;
  block_no = 56 ∷ replicate 19 0;
}

-- The file "a".
abbrev a_inode : Inode
a_inode = record root_inode {
  size = 5;
  mode = 0;
  my_inode_offset = 116;
  block_no = 57 ∷ replicate 19 0;
}

abbrev super_block : SuperBlock
super_block = record {
  free_inode_block_no = 1;
  free_inode_offset = 232;
  rootdir_inode_block_no = 1;
  rootdir_inode_offset = 0;
  data_block_bit_no = 51 ∷ 52 ∷ 53 ∷ 54 ∷ 55 ∷ [];
}

abbrev items : Bytes
items k = if k == 0 then 97 else if k == 20 then 1 else if k == 24 then 116 else 0

-- The blocks up to 57 are busy.
abbrev bits : Bytes
bits k =
    if k == 0
    then 255
    else if k == 1
    then 255
    else if k == 2
    then 255
    else if k == 3
    then 255
    else if k == 4
    then 255
    else if k == 5
    then 255
    else if k == 6
    then 255
    else if k == 7
    then 3
    else 0

abbrev disk : Disk
disk s =
    if s == 300
    then encode_super super_block zeros
    else if s == 301
    then encode_inode a_inode (encode_inode root_inode zeros 0) 116
    else if s == 351
    then bits
    else if s == 356
    then items
    else zeros

-- "/b" at the address 8, and a text at 100.
abbrev memory : Bytes
memory k =
    if k == 8
    then 47
    else if k == 9
    then 98
    else if k == 100
    then 72
    else if k == 101
    then 105
    else 0

abbrev shut : OpenFile
shut = record { oflags = 0; offset = 0; f_inode_block_no = 0; f_inode_offset = 0; isopen = 0 }

abbrev writer : OpenFile
writer = record { oflags = 1; offset = 2; f_inode_block_no = 1; f_inode_offset = 116; isopen = 1 }

abbrev reader : OpenFile
reader = record writer { oflags = 0 }

abbrev std : OpenFile
std = record shut { oflags = 2; isopen = 1 }

abbrev open_fd : ℕ → Fd
open_fd index = record { open_flag = 1; ofptr = some index }

abbrev process : Pcb
process = record {
  ctx = context;
  size = 0;
  sector = 0;
  pid = 1;
  father_pid = 0;
  pstate = RunState.running;
  pagedir = 0xc010_0000;
  next_vir_addr = 0;
  fdlist =
      open_fd 0
      ∷ open_fd 1
      ∷ open_fd 2
      ∷ open_fd 3
      ∷ open_fd 4
      ∷ replicate 15 (record { open_flag = 0; ofptr = none });
}

abbrev kernel : Kernel
kernel = record { pcblist = process ∷ []; nextpid = 2; current = 0 }

abbrev screen : Screen
screen = record { high_cursor = 0; low_cursor = 0; video = zeros; video_lock = 0 }

abbrev keyboard : Keyboard
keyboard = record { key_buffer = zeros; offset = pos 0; status_shift = 0 }

abbrev machine : Machine
machine = record {
  kernel = kernel;
  file_list = std ∷ std ∷ std ∷ writer ∷ reader ∷ shut ∷ [];
  disk = disk;
  screen = screen;
  keyboard = keyboard;
  memory = memory;
}

zero_words : (n : ℕ) → AllWords (replicate n 0)
zero_words zero = tt
zero_words (suc n) = (omega arith, zero_words n)

a_inode-InodeFits : InodeFits a_inode
a_inode-InodeFits = record {
  size = omega arith;
  atime = omega arith;
  mtime = omega arith;
  ctime = omega arith;
  mode = omega arith;
  next_block = omega arith;
  next_offset = omega arith;
  my_block = omega arith;
  my_offset = omega arith;
  words = (omega arith, zero_words 19);
  slots = refl;
}

only_first : (P : ℕ → Type 0) → P 0 → (j : ℕ) → j < 1 → P j
only_first P p zero lt = p
only_first P p (suc j) lt = absurd (omega arith)

a_inode-Mapped : Mapped a_inode 1
a_inode-Mapped = record {
  small = omega arith;
  here = only_first (λ j. get_elem? a_inode.block_no j ≡ some (block_at a_inode j)) refl;
  nonzero = only_first (λ j. block_at a_inode j ≢ 0) (λ e. absurd (omega (arith, e)));
  bound = only_first (λ j. block_at a_inode j < 2 ^ 31) (omega arith);
  apart = λ j k hj hk ne. absurd (omega arith);
}

a_inode_read : read_inode disk 1 116 ≡ a_inode
unfolding read_inode decode_inode read_words read32 encode_inode write_words write32 write8
    inode_words read16 k_readsector
a_inode_read = refl

writer-RegularFile : RegularFile machine writer a_inode 1
writer-RegularFile = record {
  inode = a_inode_read;
  regular = refl;
  some_block = omega arith;
  inode_block = omega arith;
  inode_room = omega arith;
  own_block = refl;
  own_offset = refl;
  fields = a_inode-InodeFits;
  mapped = a_inode-Mapped;
  apart = only_first (λ j. block_at a_inode j ≢ 1) (λ e. absurd (omega (arith, e)));
}

write_call : Call (call 3 100 2) machine 3 writer
unfolding opened
write_call = record {
  behind_stderr = omega arith;
  in_table = omega arith;
  buffer = λ e. absurd (omega (arith, e));
  target = refl;
}

read_call : Call (call 4 200 2) machine 4 reader
unfolding opened
read_call = record {
  behind_stderr = omega arith;
  in_table = omega arith;
  buffer = λ e. absurd (omega (arith, e));
  target = refl;
}

sys_read-sys_write_example :
    (m1 m2 : Machine) × (sys_write 10 (call 3 100 2) machine ≡ ret 2 m1)
    × (sys_read (call 4 200 2) m1 ≡ ret 2 m2)
    × (m2.memory (200 + 1) ≡ 105)
sys_read-sys_write_example =
    sys_read-sys_write 10 (call 3 100 2) (call 4 200 2) machine 3 4 writer reader a_inode 1 1
      write_call read_call (λ e. absurd (omega (arith, e))) (inl refl) (inl refl) (refl, refl, refl)
      writer-RegularFile refl (omega arith) (omega arith) (omega arith) (omega arith)

path-IsRootFile : IsRootFile memory 8 1
path-IsRootFile = record {
  root = refl;
  some_char = omega arith;
  short = omega arith;
  chars =
      only_first (λ j. (memory (8 + 1 + j) ≢ slash) × (memory (8 + 1 + j) ≢ 0))
        (λ e. absurd (omega (arith, e)), λ e. absurd (omega (arith, e)));
  end = refl;
}

root_read : get_root_dir_inode disk ≡ root_inode
unfolding get_root_dir_inode read_super_block decode_super read_words read32 encode_super
    write_words write32 write8 super_words read_inode decode_inode encode_inode inode_words read16
    k_readsector
root_read = refl

root-OneBlock : OneBlock (get_root_dir_inode disk) 56
root-OneBlock = rw root_read (record { some_item = omega arith; one = omega arith; slot = refl })

absent : (j : ℕ) → ¬ NameAt memory 8 1 items j
absent j stands = absurd (ground (arith, stands 0 (omega arith)))

free_fd : get_min_fd process ≡ some 5
unfolding get_min_fd min_fd_loop
free_fd = refl

sys_open-missing_example :
    (m' : Machine) × (file : OpenFile) × (sys_open zeros 8 2 machine ≡ ret 5 m')
    × (opened 5 m' ≡ entry 5 file)
    × (file.oflags ≡ 2)
    × (file.f_inode_block_no ≡ (get_root_dir_inode disk).my_inode_block_no)
    × (file.f_inode_offset ≡ (get_root_dir_inode disk).my_inode_offset)
unfolding set_open_file_list last_closed
sys_open-missing_example =
    sys_open-missing zeros 56 1 8 2 5 5 machine process
      (std ∷ std ∷ std ∷ writer ∷ reader ∷ entry_of 2 (get_root_dir_inode disk) shut ∷ [])
      root-OneBlock path-IsRootFile (λ e. absurd (omega (arith, e))) (λ j lt. absent j) refl free_fd
      refl

abbrev i1 : Inode
i1 = record root_inode { size = 0; mode = 0; my_inode_offset = 232; block_no = replicate 20 0 }

abbrev i : Inode
i = record i1 { block_no = 58 ∷ replicate 19 0 }

abbrev d1 : Disk
d1 =
    write_super_block zeros disk
      (record super_block { free_inode_block_no = 0; free_inode_offset = 0 })

abbrev d2 : Disk
d2 = updated (clear_block d1 58) (update_data_block_bit (clear_block d1 58) 58 block_busy)

inode_found : alloc_inode zeros disk ≡ some (i1, d1)
unfolding alloc_inode read_super_block decode_super read_words read32 encode_super write_words
    write32 write8 super_words read_inode decode_inode encode_inode inode_words read16 k_readsector
inode_found = refl

block_found : alloc_block d1 i1 ≡ some (i, d2)
unfolding alloc_block read_super_block decode_super read_words read32 encode_super write_words
    write32 write8 super_words k_readsector write_super_block write_block k_writesector free_slot
    find_free_block get_free_block free_byte free_bit bit_set
block_found = refl

root_sought : seek_file_inode zeros disk memory 8 ≡ some (get_root_dir_inode disk)
root_sought =
    seek_file_inode-missing zeros disk 56 1 memory 8 root-OneBlock path-IsRootFile
      (λ e. absurd (omega (arith, e))) (λ j lt. absent j)

sys_open-opened_example :
    (m' : Machine) × (f : Fd) × (old file : OpenFile) × (sys_open zeros 8 2 machine ≡ ret 5 m')
    × ((3 ≤ 5) × (get_elem? process.fdlist 5 ≡ some f) × (f.open_flag ≡ 0))
    × ((get_elem? machine.file_list 5 ≡ some old) × (old.isopen ≡ 0))
    × (opened 5 m' ≡ entry 5 file)
    × ((file.isopen ≡ 1)
        × (file.oflags ≡ 2)
        × (file.f_inode_block_no ≡ (get_root_dir_inode disk).my_inode_block_no)
        × (file.f_inode_offset ≡ (get_root_dir_inode disk).my_inode_offset)
        × (file.offset ≡ old.offset))
    × (m'.disk ≡ disk)
unfolding set_open_file_list last_closed
sys_open-opened_example =
    sys_open-opened zeros 8 2 5 5 machine process (get_root_dir_inode disk)
      (std ∷ std ∷ std ∷ writer ∷ reader ∷ entry_of 2 (get_root_dir_inode disk) shut ∷ [])
      root_sought refl free_fd refl

items_kept : (k : ℕ) → k < 28 → d2 (sector_of 56) k ≡ items k
unfolding update_data_block_bit clear_block write_block k_writesector write_super_block
items_kept k lt = ground arith

root_kept : get_root_dir_inode d2 ≡ root_inode
unfolding get_root_dir_inode read_super_block decode_super read_words read32 encode_super
    write_words write32 write8 super_words read_inode decode_inode encode_inode inode_words read16
    k_readsector update_data_block_bit clear_block write_block k_writesector write_super_block
root_kept = refl

super_kept :
    ((read_super_block d2).rootdir_inode_block_no ≡ 1)
    × ((read_super_block d2).rootdir_inode_offset ≡ 0)
unfolding read_super_block decode_super read_words read32 encode_super write_words write32 write8
    super_words k_readsector update_data_block_bit clear_block write_block k_writesector
    write_super_block
super_kept = (refl, refl)

d2-RootBlock : RootBlock d2 56
d2-RootBlock = record {
  one = rw root_kept (record { some_item = omega arith; one = omega arith; slot = refl });
  not_super = λ e. absurd (omega (arith, e));
  bound = omega arith;
  elsewhere = λ e. absurd (omega (arith, e, super_kept.0));
  root_bound = omega (arith, super_kept.0);
}

absent_still : (j : ℕ) → j < 28 → ¬ NameAt memory 8 1 (d2 (sector_of 56)) j
absent_still j lt stands =
    absurd (ground (arith, stands 0 (omega arith), items_kept (j + 0) (omega arith)))

abbrev created : Inode
created = record i { mode = 0 % 2 ^ 16 }

created-Apart : Apart d2 56 created
created-Apart = record {
  fields = record {
    size = omega arith;
    atime = omega arith;
    mtime = omega arith;
    ctime = omega arith;
    mode = omega arith;
    next_block = omega arith;
    next_offset = omega arith;
    my_block = omega arith;
    my_offset = omega arith;
    words = (omega arith, zero_words 19);
    slots = refl;
  };
  room = omega arith;
  not_super = λ e. absurd (omega (arith, e));
  not_items = λ e. absurd (omega (arith, e));
  root_room = omega (arith, super_kept.1);
  not_root = inr (inl (omega (arith, super_kept.1)));
}

size_kept : (get_root_dir_inode d2).size ≡ 28
size_kept = rw root_kept refl

last_zero : d2 (sector_of 56) ((get_root_dir_inode d2).size - 1) ≡ 0
last_zero = rw root_kept (items_kept 27 (omega arith))

sys_creat-opened_example :
    (m' : Machine) × (f : Fd) × (file : OpenFile) × (sys_creat (λ k. zeros) 8 0 machine ≡ ret 5 m')
    × ((get_elem? process.fdlist 5 ≡ some f) × (f.open_flag ≡ 0))
    × (opened 5 m' ≡ entry 5 file)
    × (file.oflags ≡ o_rdwr)
    × (read_inode m'.disk file.f_inode_block_no file.f_inode_offset ≡ created)
    × (get_root_dir_inode m'.disk ≡ get_root_dir_inode d2)
unfolding set_open_file_list last_closed
sys_creat-opened_example =
    sys_creat-opened (λ k. zeros) 8 1 0 5 5 56 machine process i1 i d1 d2
      (std ∷ std ∷ std ∷ writer ∷ reader ∷ entry_of o_rdwr created shut ∷ []) inode_found
      block_found d2-RootBlock path-IsRootFile (omega (arith, size_kept))
      (λ j lt. absent_still j (omega (arith, size_kept))) last_zero created-Apart refl free_fd refl

sys_close-closed_example :
    (k : Kernel) × (files : List OpenFile) × (p' : Pcb) × (left : OpenFile) × (sys_close
        (pos 3)
        machine.kernel
        machine.file_list
      ≡ some (k, files))
    × (opened 3 (record machine { kernel = k; file_list = files }) ≡ closed)
    × ((get_elem? files 3 ≡ some left)
        × (left.isopen ≡ 0)
        × (left.f_inode_block_no ≡ 0)
        × (left.f_inode_offset ≡ 0)
        × (left.oflags ≡ 0)
        × (left.offset ≡ 0))
    × ((get_elem? k.pcblist k.current ≡ some p')
        × (get_elem? p'.fdlist 4 ≡ get_elem? process.fdlist 4))
    × (get_elem? files 4 ≡ get_elem? machine.file_list 4)
unfolding opened
sys_close-closed_example =
    sys_close-closed 3 4 3 4 machine process writer (omega arith) refl refl
      (λ e. absurd (omega (arith, e))) (λ e. absurd (omega (arith, e)))

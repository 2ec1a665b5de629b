-- ===== src/Syscall.antt =====
-- The system calls of syscall.c on files and on the screen: `sys_clear`, `sys_write`, `sys_read`,
-- `sys_open` and `sys_creat`. The state is what they share: the process tables, the table of open files,
-- the disk, the screen, the keyboard, and the memory that the current process sees.
pub mod ReadWrite
pub mod Open
pub mod Create
pub mod Keeps
pub mod Close
mod Tests
use nbos.Base.{
  ℕ, zero, suc, ◌+◌, ◌-◌, ◌%◌, ◌^◌, Bool, not, ◌||◌, Option, none, some, List, [], ◌∷◌, ◌==◌, ltb,
  leb, if◌then◌else◌, get_elem?, set,
}
use nbos.Base.Bytes.{Bytes}
use nbos.File.Disk.{Disk}
use nbos.File.Layout.{Inode}
use nbos.File.Inodes.{read_inode, write_inode, alloc_inode, inode_block_size}
use nbos.File.Bitmap.{alloc_block}
use nbos.File.Content.{OpenFile, ReadResult, write_file, read_file}
use nbos.File.Format.{regular_file}
use nbos.File.Directory.{seek_file_inode, seek_base_directory, write_directory}
use nbos.File.Table.{file_max_in_process, have_access, get_min_fd, set_open_file_list}
use nbos.Process.{Fd, Pcb, Kernel, IntrContext, update}
use nbos.Screen.{Screen, print, clear_screen}
use nbos.Keyboard.{Keyboard, read_stdin}

pub record Machine : Type 0 where
  pub kernel : Kernel
  pub file_list : List OpenFile
  pub disk : Disk
  pub screen : Screen
  pub keyboard : Keyboard
  pub memory : Bytes

-- How a system call ends: with the word that the register `eax` gets; without end, where `print`
-- waits for its lock or runs on without meeting a 0; or where C gives the code no meaning (a null
-- pointer, a place behind an array, a variable without a value).
pub data Outcome : Type 0 where
  ret : ℕ → Machine → Outcome
  stuck : Outcome
  undefined : Outcome

-- The word of the result -1.
abbrev pub minus_one : ℕ
minus_one = 0xffff_ffff

abbrev pub error : Machine → Outcome
error m = ret minus_one m

abbrev pub o_rdonly : ℕ
o_rdonly = 0

abbrev pub o_wronly : ℕ
o_wronly = 1

abbrev pub o_rdwr : ℕ
o_rdwr = 2

-- The memory seen from an address on, and the memory where this part has changed.
abbrev pub from : Bytes → ℕ → Bytes
from m p k = m (p + k)

abbrev pub changed_from : Bytes → ℕ → Bytes → Bytes
changed_from m p buf k = if leb p k then buf (k - p) else m k

-- The text at an address, up to its 0, where that comes within `bound` bytes.
unfoldable pub text_at : ℕ → Bytes → ℕ → Option (List ℕ)
text_at zero m p = none
text_at (suc bound) m p =
    let rest = text_at bound m (p + 1) in
    if m p == 0 then some [] else elim rest [ none ↦ none | some text ↦ some (m p ∷ text) ]

-- The file behind a descriptor: steps 2 and 3 of `sys_write` and `sys_read`.
pub data Opened : Type 0 where
  closed : Opened
  wild : Opened
  entry : ℕ → OpenFile → Opened

abbrev pub entry_at : Option ℕ → List OpenFile → Opened
entry_at none files = wild
entry_at (some index) files = elim (get_elem? files index) [
  | none ↦ wild
  | some file ↦ entry index file
]

abbrev pub current_fd : ℕ → Kernel → Option Fd
current_fd fd k = elim (get_elem? k.pcblist k.current) [
  | none ↦ none
  | some p ↦ get_elem? p.fdlist fd
]

abbrev pub through : Option Fd → List OpenFile → Opened
through none files = wild
through (some f) files = if f.open_flag == 0 then closed else entry_at f.ofptr files

unfoldable pub opened : ℕ → Machine → Opened
opened fd m = through (current_fd fd m.kernel) m.file_list

-- `sys_clear`
unfoldable pub sys_clear : Machine → Outcome
sys_clear m = elim (clear_screen m.screen) [
  | none ↦ stuck
  | some s ↦ ret 0 (record m { screen = s })
]

abbrev pub printed : Option (List ℕ) → ℕ → Machine → Outcome
printed none size m = stuck
printed (some text) size m = elim (print text m.screen) [
  | none ↦ stuck
  | some s ↦ ret size (record m { screen = s })
]

-- The test of an entry's inode number, which is unsigned.
abbrev pub no_inode : OpenFile → Bool
no_inode file = file.f_inode_block_no == 0 || ltb inode_block_size file.f_inode_block_no

-- What `writeFile` leaves; its result is not looked at.
abbrev pub after_write :
    OpenFile → Inode → Disk → Option (Inode × OpenFile × Disk) → Inode × OpenFile × Disk
after_write file i d none = (i, file, d)
after_write file i d (some r) = r

-- Steps 5 and 6 of `sys_write`.
unfoldable pub write_opened : ℕ → OpenFile → ℕ → ℕ → Machine → Outcome
write_opened index file buf size m =
    let i = read_inode m.disk file.f_inode_block_no file.f_inode_offset in
    let now =
      if i.mode == regular_file
      then after_write file i m.disk (write_file m.disk file i (from m.memory buf) size)
      else (i, file, m.disk) in
    if no_inode file
    then error m
    else ret size (record m {
      file_list = set m.file_list index now.1;
      disk = write_inode now.2 (record now.0 { size = (now.0.size + size) % 2 ^ 32 });
    })

-- Steps 2 to 6 of `sys_write`; `print` is followed over `bound` bytes.
abbrev pub write_entry : ℕ → IntrContext → Machine → Opened → Outcome
write_entry bound ptr m closed = error m
write_entry bound ptr m wild = undefined
write_entry bound ptr m (entry index file) =
    let on_screen = printed (text_at bound m.memory ptr.ecx) ptr.edx m in
    let in_file = write_opened index file ptr.ecx ptr.edx m in
    if not (have_access file o_wronly || have_access file o_rdwr)
    then error m
    else if ptr.ebx == 1 || ptr.ebx == 2
    then on_screen
    else in_file

-- `sys_write`. A descriptor from 2^31 on is negative as an `int`, so one test covers both ends.
unfoldable pub sys_write : ℕ → IntrContext → Machine → Outcome
sys_write bound ptr m =
    let checked = write_entry bound ptr m (opened ptr.ebx m) in
    if leb file_max_in_process ptr.ebx || ptr.ecx == 0 then error m else checked

abbrev pub typed : ℕ → Machine → Option (ℕ × Bytes × Keyboard) → Outcome
typed buf m none = error m
typed buf m (some (size, bytes, k)) =
    ret size (record m { memory = changed_from m.memory buf bytes; keyboard = k })

-- The end of `sys_read` for a regular file: the inode is written back as it was read.
abbrev pub after_read : ℕ → ℕ → Inode → Machine → OpenFile × ReadResult → Outcome
after_read index buf i m (file, ReadResult.fault) = undefined
after_read index buf i m (file, ReadResult.failed bytes) = error (record m {
  file_list = set m.file_list index file;
  disk = write_inode m.disk i;
  memory = changed_from m.memory buf bytes;
})
after_read index buf i m (file, ReadResult.got n bytes) = ret n (record m {
  file_list = set m.file_list index file;
  disk = write_inode m.disk i;
  memory = changed_from m.memory buf bytes;
})

-- Steps 5 and 6 of `sys_read`; for what is not a regular file the result has no value.
unfoldable pub read_opened : ℕ → OpenFile → ℕ → ℕ → Machine → Outcome
read_opened index file buf size m =
    let i = read_inode m.disk file.f_inode_block_no file.f_inode_offset in
    let regular = after_read index buf i m (read_file m.disk file i (from m.memory buf) size) in
    if no_inode file then error m else if i.mode == regular_file then regular else undefined

-- Steps 2 to 6 of `sys_read`.
abbrev pub read_entry : IntrContext → Machine → Opened → Outcome
read_entry ptr m closed = error m
read_entry ptr m wild = undefined
read_entry ptr m (entry index file) =
    let from_keyboard = typed ptr.ecx m (read_stdin m.keyboard (from m.memory ptr.ecx)) in
    let in_file = read_opened index file ptr.ecx ptr.edx m in
    if not (have_access file o_rdonly || have_access file o_rdwr)
    then error m
    else if ptr.ebx == 0
    then from_keyboard
    else in_file

-- `sys_read`
unfoldable pub sys_read : IntrContext → Machine → Outcome
sys_read ptr m =
    let checked = read_entry ptr m (opened ptr.ebx m) in
    if leb file_max_in_process ptr.ebx || ptr.ecx == 0 then error m else checked

-- Step 4 of `sys_open`.
abbrev pub install_fd : ℕ → ℕ → Kernel → Kernel
install_fd fd index k = record k {
  pcblist =
      update k.current
        (λ p. record p { fdlist = set p.fdlist fd (record { open_flag = 1; ofptr = some index }) })
        k.pcblist;
}

-- The descriptor is returned too where no entry is left for it.
abbrev pub installed : ℕ → Machine → Option (ℕ × List OpenFile) → Outcome
installed fd m none = ret fd m
installed fd m (some (index, files)) =
    ret fd (record m { file_list = files; kernel = install_fd fd index m.kernel })

abbrev pub open_inode : ℕ → Inode → Machine → Outcome
open_inode oflag i m = elim (get_elem? m.kernel.pcblist m.kernel.current) [
  | none ↦ undefined
  | some p ↦ elim (get_min_fd p) [
    | none ↦ error m
    | some fd ↦ installed fd m (set_open_file_list oflag i m.file_list)
  ]
]

-- `sys_open` of the path at an address; `behind` is what the stack held.
unfoldable pub sys_open : Bytes → ℕ → ℕ → Machine → Outcome
sys_open behind path oflag m = elim (seek_file_inode behind m.disk m.memory path) [
  | none ↦ undefined
  | some i ↦ open_inode oflag i m
]

-- `sys_creat` from step 4 on. The directory's inode `base` is neither given its new size nor written.
unfoldable pub create_in : (ℕ → Bytes) → ℕ → Inode → Machine → Outcome
create_in behind path i m = elim (seek_base_directory (behind 1) m.disk m.memory path) [
  | none ↦ undefined
  | some base ↦ elim (write_directory (behind 2) m.disk base m.memory path i) [
    | none ↦ undefined
    | some (base', d) ↦ sys_open (behind 3) path o_rdwr (record m { disk = write_inode d i })
  ]
]

-- `sys_creat`. `behind` gives what the stack held where each function called puts its buffers.
unfoldable pub sys_creat : (ℕ → Bytes) → ℕ → ℕ → Machine → Outcome
sys_creat behind path mode m = elim (alloc_inode (behind 0) m.disk) [
  | none ↦ error m
  | some (i, d) ↦ elim (alloc_block d i) [
    | none ↦ error (record m { disk = d })
    | some (i', d') ↦
        create_in behind path (record i' { mode = mode % 2 ^ 16 }) (record m { disk = d' })
  ]
]

-- ===== src/Syscall/Open.antt =====
-- `sys_open` of syscall.c, with `getMinfd` and `setOpenFileList` of file.c.
use nbos.Base.{
  get_elem?-inside, ℕ, zero, suc, ◌+◌, ◌≤◌, ◌<◌, ◌≡◌, ◌≢◌, inl, inr, refl, sym, ap, ◌∙◌, arith,
  false, some, List, [], ◌∷◌, ◌==◌, get_elem?, set, get_elem?-set_self, Bool-cases,
}
use nbos.Base.Bytes.{Bytes}
use nbos.File.Disk.{sector_of}
use nbos.File.Layout.{Inode}
use nbos.File.Inodes.{get_root_dir_inode}
use nbos.File.Content.{OpenFile}
use nbos.File.Directory.{seek_file_inode}
use nbos.File.Directory.Paths.{IsRootFile}
use nbos.File.Directory.Lookup.{NameAt, OneBlock}
use nbos.File.Directory.Missing.{seek_file_inode-missing}
use nbos.File.Table.{
  min_fd_loop, behind_stderr, get_min_fd, set_open_file_list, set_open_file_list_lem, entry_of,
}
use nbos.Process.{Fd, Pcb}
use nbos.Process.Table.{get_elem?-update_self}
use nbos.Syscall.{
  Machine, ret, opened, entry, entry_at, current_fd, through, sys_open, open_inode, installed,
  install_fd,
}

-- The first closed descriptor of a table, counted from `i`.
pub record FirstClosed (fds : List Fd) (i fd : ℕ) : Type 0 where
  pub place : ℕ
  pub slot : Fd
  pub number : fd ≡ i + place
  pub here : get_elem? fds place ≡ some slot
  pub shut : slot.open_flag ≡ 0
  pub before : (j : ℕ) (f : Fd) → j < place → get_elem? fds j ≡ some f → f.open_flag ≢ 0

min_fd_loop-FirstClosed :
    (i : ℕ) (fds : List Fd) (fd : ℕ) → min_fd_loop i fds ≡ some fd → FirstClosed fds i fd
unfolding min_fd_loop
min_fd_loop-FirstClosed i [] fd run = cc run
min_fd_loop-FirstClosed i (f ∷ fds) fd run = elim (Bool-cases (f.open_flag == 0)) [
  | inl e ↦
      let here : min_fd_loop i (f ∷ fds) ≡ some i = rw e in
      let same : i ≡ fd = cc (here, run) in
      record {
        place = 0;
        slot = f;
        number = omega arith;
        here = refl;
        shut = ground (arith, e);
        before = λ j g lt. omega (arith, lt);
      }
  | inr e ↦
      let later : min_fd_loop i (f ∷ fds) ≡ min_fd_loop (i + 1) fds = rw e in
      let rest = min_fd_loop-FirstClosed (i + 1) fds fd (sym later ∙ run) in
      record {
        place = suc rest.place;
        slot = rest.slot;
        number = rest.number ∙ omega arith;
        here = rest.here;
        shut = rest.shut;
        before = λ j g. earlier f fds rest.place e rest.before j g;
      }
]
  where
    earlier :
        (f : Fd) (fds : List Fd) (place : ℕ)
        → (f.open_flag == 0) ≡ false
        → ((j : ℕ) (g : Fd) → j < place → get_elem? fds j ≡ some g → g.open_flag ≢ 0)
        → (j : ℕ) (g : Fd) → j < suc place
        → get_elem? (f ∷ fds) j ≡ some g
        → g.open_flag ≢ 0
    earlier f fds place e before zero g lt at =
        let same : f ≡ g = cc at in λ z. ground (arith, e, ap (λ (h : Fd). h.open_flag) same, z)
    earlier f fds place e before (suc j) g lt at = before j g (omega arith) at

-- `getMinfd` gives a closed descriptor behind the three standard ones, and those between are open.
pub get_min_fd-FirstClosed :
    (p : Pcb) (fd : ℕ) → get_min_fd p ≡ some fd → FirstClosed (behind_stderr p.fdlist) 3 fd
unfolding get_min_fd
get_min_fd-FirstClosed p fd run = min_fd_loop-FirstClosed 3 (behind_stderr p.fdlist) fd run

behind_stderr_at :
    (fds : List Fd) (j : ℕ) (f : Fd)
    → get_elem? (behind_stderr fds) j ≡ some f
    → get_elem? fds (3 + j) ≡ some f
behind_stderr_at [] j f at = cc at
behind_stderr_at (a ∷ []) j f at = cc at
behind_stderr_at (a ∷ b ∷ []) j f at = cc at
behind_stderr_at (a ∷ b ∷ c ∷ fds) j f at =
    let three : 3 + j ≡ suc (suc (suc j)) = omega arith in
    ap (get_elem? (a ∷ b ∷ c ∷ fds)) three ∙ at

set_open_file_list-entry :
    (oflag : ℕ) (i : Inode) (files files' : List OpenFile) (index : ℕ)
    → set_open_file_list oflag i files ≡ some (index, files')
    → (file : OpenFile) × ((get_elem? files index ≡ some file)
        × (file.isopen ≡ 0)
        × (get_elem? files' index ≡ some (entry_of oflag i file)))
set_open_file_list-entry oflag i files files' index run =
    let (file, (at, shut, there, others)) =
      set_open_file_list_lem oflag i files files' index (suc index) run (omega arith) in
    (file, (at, shut, there))

-- A descriptor that step 4 of `sys_open` has filled leads to its entry.
opened-install_fd :
    (fd index : ℕ) (m : Machine) (p : Pcb) (f : Fd) (files : List OpenFile) (file : OpenFile)
    → get_elem? m.kernel.pcblist m.kernel.current ≡ some p
    → get_elem? p.fdlist fd ≡ some f
    → get_elem? files index ≡ some file
    → opened fd (record m { file_list = files; kernel = install_fd fd index m.kernel })
      ≡ entry index file
unfolding opened
opened-install_fd fd index m p f files file current slot there = rw (
  opened,
  current_fd,
  through,
  entry_at,
  get_elem?-update_self m.kernel.current
      (λ (q : Pcb). record q {
        fdlist = set q.fdlist fd (record { open_flag = 1; ofptr = some index });
      })
      m.kernel.pcblist current,
  get_elem?-set_self p.fdlist fd (record { open_flag = 1; ofptr = some index })
      (get_elem?-inside p.fdlist fd slot),
  there,
)

-- Let a path lead to the inode `i`, the current process have a descriptor left, and the table of open files
-- an entry. Then `sys_open` returns a descriptor of at least 3 that was closed before, and the
-- descriptor now leads to an entry, which was closed before and is marked open, with the flags of the call
-- and the block and the offset of the inode; the offset in the file is what the entry had before. The disk
-- stays.
pub sys_open-opened :
    (behind : Bytes) (path oflag fd index : ℕ) (m : Machine) (p : Pcb) (i : Inode)
    (files : List OpenFile)
    → seek_file_inode behind m.disk m.memory path ≡ some i
    → get_elem? m.kernel.pcblist m.kernel.current ≡ some p
    → get_min_fd p ≡ some fd
    → set_open_file_list oflag i m.file_list ≡ some (index, files)
    → (m' : Machine) × (f : Fd) × (old file : OpenFile) × (sys_open behind path oflag m ≡ ret fd m')
      × ((3 ≤ fd) × (get_elem? p.fdlist fd ≡ some f) × (f.open_flag ≡ 0))
      × ((get_elem? m.file_list index ≡ some old) × (old.isopen ≡ 0))
      × (opened fd m' ≡ entry index file)
      × ((file.isopen ≡ 1)
          × (file.oflags ≡ oflag)
          × (file.f_inode_block_no ≡ i.my_inode_block_no)
          × (file.f_inode_offset ≡ i.my_inode_offset)
          × (file.offset ≡ old.offset))
      × (m'.disk ≡ m.disk)
unfolding sys_open
sys_open-opened behind path oflag fd index m p i files found current free room =
    let first = get_min_fd-FirstClosed p fd free in
    let (old, (at, shut, there)) = set_open_file_list-entry oflag i m.file_list files index room in
    let slot : get_elem? p.fdlist fd ≡ some first.slot =
      ap (get_elem? p.fdlist) first.number
      ∙ behind_stderr_at p.fdlist first.place first.slot first.here in
    (
      record m { file_list = files; kernel = install_fd fd index m.kernel },
      first.slot,
      old,
      entry_of oflag i old,
      rw (sys_open, found, open_inode, current, free, installed, room),
      (omega (arith, first.number), slot, first.shut),
      (at, shut),
      opened-install_fd fd index m p first.slot files (entry_of oflag i old) current slot there,
      (refl, refl, refl, refl, refl),
      refl,
    )

-- Let the path be "/name", and the root directory one block, in which the name's characters stand nowhere,
-- neither as a whole name nor as a part of one, and whose last byte is not the name's first character. Let
-- the current process have a descriptor left and the table of open files an entry. Then `sys_open` opens the
-- root directory itself, with the flags of the call: the descriptor returned leads to the directory's inode.
pub sys_open-missing :
    (behind : Bytes) (b n path oflag fd index : ℕ) (m : Machine) (p : Pcb) (files : List OpenFile)
    → OneBlock (get_root_dir_inode m.disk) b
    → IsRootFile m.memory path n
    → m.disk (sector_of b) 511 ≢ m.memory (path + 1)
    → ((j : ℕ) → j < 512 → ¬ NameAt m.memory path n (m.disk (sector_of b)) j)
    → get_elem? m.kernel.pcblist m.kernel.current ≡ some p
    → get_min_fd p ≡ some fd
    → set_open_file_list oflag (get_root_dir_inode m.disk) m.file_list ≡ some (index, files)
    → (m' : Machine) × (file : OpenFile) × (sys_open behind path oflag m ≡ ret fd m')
      × (opened fd m' ≡ entry index file)
      × (file.oflags ≡ oflag)
      × (file.f_inode_block_no ≡ (get_root_dir_inode m.disk).my_inode_block_no)
      × (file.f_inode_offset ≡ (get_root_dir_inode m.disk).my_inode_offset)
sys_open-missing behind b n path oflag fd index m p files one file last absent current free room =
    let (m', f, old, new, ran, number, at, leads, (open_now, flags, block, offset, rest), disk) =
      sys_open-opened behind path oflag fd index m p (get_root_dir_inode m.disk) files
        (seek_file_inode-missing behind m.disk b n m.memory path one file last absent) current free
        room in
    (m', new, ran, leads, flags, block, offset)

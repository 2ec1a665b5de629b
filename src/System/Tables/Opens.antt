-- ===== src/System/Tables/Opens.antt =====
-- What `sys_write`, `sys_open`, `sys_creat` and `sys_close` leave of the processes' tables.
use nbos.Base.{
  ℕ, ◌%◌, ◌^◌, ◌≡◌, inl, inr, refl, sym, arith, not, ◌||◌, Option, none, some, List, ◌==◌, leb,
  length, set, get_elem?, length-set, Option-cases, Bool-cases,
}
use mathlib.Core.Path.{subst}
use nbos.Base.Bytes.{Bytes}
use nbos.Base.Int.{ℤ, pos, negsuc}
use nbos.File.Layout.{Inode}
use nbos.File.Content.{OpenFile}
use nbos.File.Inodes.{alloc_inode, write_inode}
use nbos.File.Bitmap.{alloc_block}
use nbos.File.Directory.{seek_file_inode, seek_base_directory, write_directory}
use nbos.File.Table.{
  file_max_in_process, have_access, get_min_fd, set_open_file_list, del_file, empty_entry,
  closed_fd, close_fd, sys_close,
}
use nbos.Process.{Fd, Pcb, Kernel, IntrContext, update}
use nbos.Screen.{print}
use nbos.Syscall.{
  Machine, Opened, closed, wild, entry, opened, error, no_inode, printed, text_at, write_opened,
  write_entry, sys_write, sys_open, open_inode, installed, sys_creat, create_in, o_wronly, o_rdwr,
}
use nbos.Syscall.Open.{get_min_fd-FirstClosed}
use nbos.System.Tables.{Tables, Fds-set, Fds-close, Tables-update}
use nbos.System.Tables.Files.{After, either, longer, set_open_file_list-length}

module _ (m : Machine) (h : Tables (length m.file_list) m.kernel) where
  printed-After : (text : Option (List ℕ)) (size : ℕ) → After (printed text size m)
  printed-After none size = tt
  printed-After (some text) size = elim (Option-cases (print text m.screen)) [
    | inl e ↦ rw (After, printed, e) tt
    | inr (s, e) ↦ rw (After, printed, e) h
  ]

  pub sys_write-After : (bound : ℕ) (ptr : IntrContext) → After (sys_write bound ptr m)
  unfolding sys_write write_opened
  sys_write-After bound ptr =
      either (leb file_max_in_process ptr.ebx || ptr.ecx == 0) (error m) _ h
        (entered (opened ptr.ebx m))
    where
      in_file : (index : ℕ) (file : OpenFile) → After (write_opened index file ptr.ecx ptr.edx m)
      in_file index file =
          either (no_inode file) (error m) _ h
            (longer m h (set m.file_list index _) (length-set m.file_list index _))

      entered : (o : Opened) → After (write_entry bound ptr m o)
      entered closed = h
      entered wild = tt
      entered (entry index file) =
          either (not (have_access file o_wronly || have_access file o_rdwr)) (error m) _ h (
            either (ptr.ebx == 1 || ptr.ebx == 2) _ _
              (printed-After (text_at bound m.memory ptr.ecx) ptr.edx) (in_file index file))

  -- A descriptor that `getMinfd` gives is not a standard one.
  installed-After :
      (p : Pcb) (fd oflag : ℕ) (i : Inode)
      → get_min_fd p ≡ some fd
      → After (installed fd m (set_open_file_list oflag i m.file_list))
  installed-After p fd oflag i free = elim (Option-cases (set_open_file_list oflag i m.file_list)) [
    | inl e ↦ rw (After, installed, e) h
    | inr ((index, files), e) ↦
        let (inside, same) = set_open_file_list-length oflag i m.file_list files index e in
        let first = get_min_fd-FirstClosed p fd free in
        rw (After, installed, e)
          (Tables-update (length files) m.kernel.current m.kernel.nextpid
            (λ q. record q {
              fdlist = set q.fdlist fd (record { open_flag = 1; ofptr = some index });
            })
            m.kernel
            (λ q fds.
              Fds-set (length files) fd _ q.fdlist
                (inr (record {
                  above = omega (arith, first.number);
                  index = index;
                  leads = refl;
                  inside = omega (arith, inside, same);
                }))
                fds)
            (longer m h files same))
  ]

  pub sys_open-After : (behind : Bytes) (path oflag : ℕ) → After (sys_open behind path oflag m)
  unfolding sys_open
  sys_open-After behind path oflag =
      elim (Option-cases (seek_file_inode behind m.disk m.memory path)) [
        | inl e ↦ rw (After, sys_open, e) tt
        | inr (i, e) ↦ rw (sys_open, e) (found i)
      ]
    where
      found : (i : Inode) → After (open_inode oflag i m)
      found i = elim (Option-cases (get_elem? m.kernel.pcblist m.kernel.current)) [
        | inl e ↦ rw (After, open_inode, e) tt
        | inr (p, e) ↦ elim (Option-cases (get_min_fd p)) [
          | inl full ↦ rw (After, open_inode, e, full) h
          | inr (fd, free) ↦ rw (open_inode, e, free) (installed-After p fd oflag i free)
        ]
      ]

create_in-After :
    (behind : ℕ → Bytes) (path : ℕ) (i : Inode) (m : Machine)
    → Tables (length m.file_list) m.kernel
    → After (create_in behind path i m)
unfolding create_in
create_in-After behind path i m h =
    elim (Option-cases (seek_base_directory (behind 1) m.disk m.memory path)) [
      | inl e ↦ rw (After, create_in, e) tt
      | inr (base, e) ↦
          elim (Option-cases (write_directory (behind 2) m.disk base m.memory path i)) [
            | inl missing ↦ rw (After, create_in, e, missing) tt
            | inr ((base', d), written) ↦
                rw (create_in, e, written)
                  (sys_open-After (record m { disk = write_inode d i }) h (behind 3) path o_rdwr)
          ]
    ]

pub sys_creat-After :
    (behind : ℕ → Bytes) (path mode : ℕ) (m : Machine)
    → Tables (length m.file_list) m.kernel
    → After (sys_creat behind path mode m)
unfolding sys_creat
sys_creat-After behind path mode m h = elim (Option-cases (alloc_inode (behind 0) m.disk)) [
  | inl e ↦ rw (After, sys_creat, e) h
  | inr ((i, d), e) ↦ elim (Option-cases (alloc_block d i)) [
    | inl full ↦ rw (After, sys_creat, e, full) h
    | inr ((i', d'), room) ↦
        rw (sys_creat, e, room)
          (create_in-After behind path (record i' { mode = mode % 2 ^ 16 }) (record m { disk = d' })
            h)
  ]
]

pub del_file-length :
    (o : Option ℕ) (files : List OpenFile) → length (del_file o files) ≡ length files
unfolding del_file
del_file-length none files = refl
del_file-length (some index) files = length-set files index empty_entry

-- The tables are in order after `sys_close`, where it has closed the descriptor.
abbrev pub AfterClose : Option (Kernel × List OpenFile) → Type 0
AfterClose none = Unit
AfterClose (some (k, files)) = Tables (length files) k

pub sys_close-AfterClose :
    (fd : ℤ) (k : Kernel) (files : List OpenFile)
    → Tables (length files) k
    → AfterClose (sys_close fd k files)
unfolding sys_close
sys_close-AfterClose (negsuc fd) k files h = tt
sys_close-AfterClose (pos fd) k files h = elim (Bool-cases (leb file_max_in_process fd)) [
  | inl out ↦ rw (AfterClose, sys_close, out) tt
  | inr inside ↦ rw (sys_close, inside) slot
]
  where
    done :
        (f : Fd)
        → Tables (length (del_file f.ofptr files)) (record k {
          pcblist =
              update k.current (λ q. record q { fdlist = set q.fdlist fd closed_fd }) k.pcblist;
        })
    done f =
        Tables-update (length (del_file f.ofptr files)) k.current k.nextpid
          (λ q. record q { fdlist = set q.fdlist fd closed_fd }) k
          (λ q. Fds-close (length (del_file f.ofptr files)) fd q.fdlist)
          (subst (λ (n : ℕ). Tables n k) (sym (del_file-length f.ofptr files)) h)

    slot : AfterClose (close_fd fd k files)
    slot = elim (Option-cases (get_elem? k.pcblist k.current)) [
      | inl e ↦ rw (AfterClose, close_fd, e) tt
      | inr (p, e) ↦ elim (Option-cases (get_elem? p.fdlist fd)) [
        | inl missing ↦ rw (AfterClose, close_fd, e, missing) tt
        | inr (f, there) ↦ elim (Bool-cases (f.open_flag == 0)) [
          | inl shut ↦ rw (AfterClose, close_fd, e, there, shut) tt
          | inr open_now ↦ rw (AfterClose, close_fd, e, there, open_now) (done f)
        ]
      ]
    ]

-- ===== src/File/Table.antt =====
-- The tables of open files in file.c, and `sys_close` of syscall.c.
use nbos.Base.{
  sym, Option-cases, ℕ, zero, suc, ◌+◌, ◌<◌, ◌≡◌, ◌≢◌, refl, arith, Bool, Option, none, some, List,
  [], ◌∷◌, map, length, set, get_elem?, ◌==◌, leb, if◌then◌else◌, get_elem?-set_self,
  get_elem?-set_ne, Bool-cases, inl, inr, ◌∙◌, ap, ◌⊎◌,
}
use nbos.Base.Int.{ℤ, pos, negsuc}
use nbos.File.Layout.{Inode}
use nbos.File.Content.{OpenFile}
use nbos.Process.{Fd, Pcb, Kernel, update}

abbrev pub file_max_in_process : ℕ
file_max_in_process = 20

-- The entry that `init_openFileList` leaves: the flags stay as they were.
abbrev pub closed_entry : OpenFile → OpenFile
closed_entry file = record file { f_inode_block_no = 0; f_inode_offset = 0; offset = 0; isopen = 0 }

abbrev pub opened_at : ℕ → ℕ → List OpenFile → List OpenFile
opened_at i flags files = elim (get_elem? files i) [
  | none ↦ files
  | some file ↦ set files i (record file { oflags = flags; isopen = 1 })
]

-- `init_openFileList`: `O_RDWR` is 2 and `O_RDONLY` is 0.
unfoldable pub init_open_file_list : List OpenFile → List OpenFile
init_open_file_list files = opened_at 0 0 (opened_at 2 2 (opened_at 1 2 (map closed_entry files)))

-- `isOpen`; `none` is a read behind the table.
unfoldable pub is_open : ℕ → Pcb → Option ℕ
is_open fd p = elim (get_elem? p.fdlist fd) [ none ↦ none | some f ↦ some f.open_flag ]

unfoldable pub have_access : OpenFile → ℕ → Bool
have_access file flag = file.oflags == flag

-- The loop of `getMinfd`, over the descriptors from `fdindex` on.
unfoldable pub min_fd_loop : ℕ → List Fd → Option ℕ
min_fd_loop fdindex [] = none
min_fd_loop fdindex (f ∷ fds) =
    let rest = min_fd_loop (fdindex + 1) fds in if f.open_flag == 0 then some fdindex else rest

abbrev pub behind_stderr : List Fd → List Fd
behind_stderr (a ∷ b ∷ c ∷ fds) = fds
behind_stderr fds = []

unfoldable pub get_min_fd : Pcb → Option ℕ
unfolding min_fd_loop
get_min_fd p = min_fd_loop 3 (behind_stderr p.fdlist)

-- The loop of `setOpenFileList`, which does not stop at the first closed entry.
unfoldable pub last_closed : ℕ → Option ℕ → List OpenFile → Option ℕ
last_closed i index [] = index
last_closed i index (file ∷ files) =
    last_closed (i + 1) (if file.isopen == 0 then some i else index) files

abbrev pub entry_of : ℕ → Inode → OpenFile → OpenFile
entry_of oflag i file = record file {
  oflags = oflag;
  isopen = 1;
  f_inode_block_no = i.my_inode_block_no;
  f_inode_offset = i.my_inode_offset;
}

abbrev pub fill_entry : ℕ → Inode → List OpenFile → Option ℕ → Option (ℕ × List OpenFile)
fill_entry oflag i files none = none
fill_entry oflag i files (some index) = elim (get_elem? files index) [
  | none ↦ none
  | some file ↦ some (index, set files index (entry_of oflag i file))
]

-- The index of the entry and the table; `none` is NULL.
unfoldable pub set_open_file_list : ℕ → Inode → List OpenFile → Option (ℕ × List OpenFile)
set_open_file_list oflag i files = fill_entry oflag i files (last_closed 0 none files)

abbrev pub empty_entry : OpenFile
empty_entry = record {
  oflags = 0;
  offset = 0;
  f_inode_block_no = 0;
  f_inode_offset = 0;
  isopen = 0;
}

unfoldable pub del_file : Option ℕ → List OpenFile → List OpenFile
del_file none files = files
del_file (some index) files = set files index empty_entry

abbrev pub closed_fd : Fd
closed_fd = record { open_flag = 0; ofptr = none }

abbrev pub close_fd : ℕ → Kernel → List OpenFile → Option (Kernel × List OpenFile)
close_fd fd k files = elim (get_elem? k.pcblist k.current) [
  | none ↦ none
  | some p ↦ elim (get_elem? p.fdlist fd) [
    | none ↦ none
    | some f ↦
        if f.open_flag == 0
        then none
        else some (
          record k {
            pcblist =
                update k.current (λ q. record q { fdlist = set q.fdlist fd closed_fd }) k.pcblist;
          },
          del_file f.ofptr files,
        )
  ]
]

-- `sys_close`; `none` is the result -1, with nothing changed.
unfoldable pub sys_close : ℤ → Kernel → List OpenFile → Option (Kernel × List OpenFile)
unfolding del_file
sys_close (negsuc fd) k files = none
sys_close (pos fd) k files =
    let done = close_fd fd k files in if leb file_max_in_process fd then none else done

lt_of :
    (files : List OpenFile) (n : ℕ) {file : OpenFile}
    → get_elem? files n ≡ some file
    → n < length files
lt_of [] n at = cc at
lt_of (f ∷ files) zero at = omega arith
lt_of (f ∷ files) (suc n) at = omega (arith, lt_of files n at)

-- The entry found is closed.
last_closed-closed :
    (files : List OpenFile) (i : ℕ) (index : Option ℕ) (n : ℕ)
    → last_closed i index files ≡ some n
    → (index ≡ some n)
      ⊎ ((j : ℕ) × (file : OpenFile) × ((n ≡ i + j)
            × (get_elem? files j ≡ some file)
            × (file.isopen ≡ 0)))
unfolding last_closed
last_closed-closed [] i index n run = inl run
last_closed-closed (file ∷ files) i index n run =
    elim (last_closed-closed files (i + 1) (if file.isopen == 0 then some i else index) n run) [
      | inr (j, f, (e, at, closed)) ↦ inr (suc j, f, (omega arith, at, closed))
      | inl e ↦ elim (Bool-cases (file.isopen == 0)) [
        | inl c ↦
            let here : (if file.isopen == 0 then some i else index) ≡ some i = rw c in
            let same : i ≡ n = cc (here, e) in inr (0, file, (omega arith, refl, ground arith))
        | inr c ↦
            let here : (if file.isopen == 0 then some i else index) ≡ index = rw c in
            inl (sym here ∙ e)
      ]
    ]

-- `setOpenFileList` takes an entry that was closed, opens it for the inode with the given flags, and
-- leaves every other entry `j`.
pub set_open_file_list_lem :
    (oflag : ℕ) (i : Inode) (files files' : List OpenFile) (index j : ℕ)
    → set_open_file_list oflag i files ≡ some (index, files')
    → j ≢ index
    → (file : OpenFile) × ((get_elem? files index ≡ some file)
        × (file.isopen ≡ 0)
        × (get_elem? files' index ≡ some (entry_of oflag i file))
        × (get_elem? files' j ≡ get_elem? files j))
unfolding set_open_file_list
set_open_file_list_lem oflag i files files' index j run ne =
    elim (Option-cases (last_closed 0 none files)) [
      | inl missing ↦
          let none_there : set_open_file_list oflag i files ≡ none = rw missing in
          cc (none_there, run)
      | inr (n, there) ↦ elim (last_closed-closed files 0 none n there) [
        | inl absurd_case ↦ cc absurd_case
        | inr (k, file, (e, at, closed)) ↦
            let same : n ≡ k = omega arith in
            let at_n : get_elem? files n ≡ some file = ap (get_elem? files) same ∙ at in
            let result : set_open_file_list oflag i files
                ≡ some (n, set files n (entry_of oflag i file)) =
              rw (there, fill_entry, at_n) in
            let n_index : n ≡ index = cc (result, run) in
            let list : set files n (entry_of oflag i file) ≡ files' = cc (result, run) in
            (
              file,
              (
                ap (get_elem? files) (sym n_index) ∙ at_n,
                closed,
                ap (λ l. get_elem? l index) (sym list)
                    ∙ ap (get_elem? (set files n (entry_of oflag i file))) (sym n_index)
                    ∙ get_elem?-set_self files n _ (lt_of files n at_n),
                ap (λ l. get_elem? l j) (sym list)
                    ∙ get_elem?-set_ne files _ (λ e. ne (sym e ∙ n_index)),
              ),
            )
      ]
    ]

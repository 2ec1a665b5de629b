-- ===== src/System/Tables/Files.antt =====
-- What the system calls on files leave of the processes' tables.
use nbos.Base.{
  ℕ, ◌<◌, ◌≡◌, inl, inr, sym, ap, ◌∙◌, Bool, true, false, not, ◌||◌, Option, none, some, List, ◌==◌,
  leb, if◌then◌else◌, length, set, get_elem?, length-set, get_elem?-inside, Option-cases,
}
use mathlib.Core.Path.{subst}
use nbos.Base.Bytes.{Bytes}
use nbos.File.Layout.{Inode}
use nbos.File.Content.{OpenFile, ReadResult, read_file}
use nbos.File.Format.{regular_file}
use nbos.File.Inodes.{read_inode}
use nbos.File.Table.{
  file_max_in_process, have_access, set_open_file_list, fill_entry, last_closed, entry_of,
}
use nbos.Keyboard.{Keyboard, read_stdin}
use nbos.Process.{IntrContext}
use nbos.Screen.{clear_screen}
use nbos.Syscall.{
  Machine, Outcome, ret, stuck, undefined, Opened, closed, wild, entry, opened, error, no_inode,
  typed, after_read, read_opened, read_entry, sys_read, sys_clear, o_rdonly, o_rdwr, from,
}
use nbos.System.Tables.{Tables}

-- The tables are in order after a call, where it returns.
abbrev pub After : Outcome → Type 0
After (ret a m) = Tables (length m.file_list) m.kernel
After stuck = Unit
After undefined = Unit

pub either : (b : Bool) (x y : Outcome) → After x → After y → After (if b then x else y)
either true x y first second = first
either false x y first second = second

-- The table of open files keeps its length.
pub set_open_file_list-length :
    (oflag : ℕ) (i : Inode) (files files' : List OpenFile) (index : ℕ)
    → set_open_file_list oflag i files ≡ some (index, files')
    → (index < length files) × (length files' ≡ length files)
unfolding set_open_file_list
set_open_file_list-length oflag i files files' index run = filled (last_closed 0 none files) run
  where
    filled :
        (o : Option ℕ)
        → fill_entry oflag i files o ≡ some (index, files')
        → (index < length files) × (length files' ≡ length files)
    filled none e = cc e
    filled (some n) e = elim (Option-cases (get_elem? files n)) [
      | inl missing ↦
          let nothing : fill_entry oflag i files (some n) ≡ none = rw (fill_entry, missing) in
          cc (e, nothing)
      | inr (file, there) ↦
          let result : fill_entry oflag i files (some n)
              ≡ some (n, set files n (entry_of oflag i file)) =
            rw (fill_entry, there) in
          let place : n ≡ index = cc (result, e) in
          let list : set files n (entry_of oflag i file) ≡ files' = cc (result, e) in
          (
            subst (λ (l : ℕ). l < length files) place (get_elem?-inside files n there),
            ap length (sym list) ∙ length-set files n (entry_of oflag i file),
          )
    ]

module _ (m : Machine) (h : Tables (length m.file_list) m.kernel) where
  pub longer :
      (files : List OpenFile) → length files ≡ length m.file_list → Tables (length files) m.kernel
  longer files same = subst (λ (n : ℕ). Tables n m.kernel) (sym same) h

  pub sys_clear-After : After (sys_clear m)
  unfolding sys_clear
  sys_clear-After = elim (Option-cases (clear_screen m.screen)) [
    | inl e ↦ rw (After, sys_clear, e) tt
    | inr (s, e) ↦ rw (After, sys_clear, e) h
  ]

  typed-After : (buf : ℕ) (o : Option (ℕ × Bytes × Keyboard)) → After (typed buf m o)
  typed-After buf none = h
  typed-After buf (some (size, bytes, k)) = h

  after_read-After :
      (index buf : ℕ) (i : Inode) (r : OpenFile × ReadResult) → After (after_read index buf i m r)
  after_read-After index buf i (file, ReadResult.fault) = tt
  after_read-After index buf i (file, ReadResult.failed bytes) =
      longer (set m.file_list index file) (length-set m.file_list index file)
  after_read-After index buf i (file, ReadResult.got n bytes) =
      longer (set m.file_list index file) (length-set m.file_list index file)

  pub sys_read-After : (ptr : IntrContext) → After (sys_read ptr m)
  unfolding sys_read read_opened
  sys_read-After ptr =
      either (leb file_max_in_process ptr.ebx || ptr.ecx == 0) (error m) _ h
        (entered (opened ptr.ebx m))
    where
      in_file : (index : ℕ) (file : OpenFile) → After (read_opened index file ptr.ecx ptr.edx m)
      in_file index file =
          let i = read_inode m.disk file.f_inode_block_no file.f_inode_offset in
          either (no_inode file) (error m) _ h (
            either (i.mode == regular_file) _ undefined
              (after_read-After index ptr.ecx i
                (read_file m.disk file i (from m.memory ptr.ecx) ptr.edx))
              tt)

      entered : (o : Opened) → After (read_entry ptr m o)
      entered closed = h
      entered wild = tt
      entered (entry index file) =
          either (not (have_access file o_rdonly || have_access file o_rdwr)) (error m) _ h (
            either (ptr.ebx == 0) _ _
              (typed-After ptr.ecx (read_stdin m.keyboard (from m.memory ptr.ecx)))
              (in_file index file))

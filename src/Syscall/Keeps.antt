-- ===== src/Syscall/Keeps.antt =====
-- What `sys_write` leaves alone, on each of its paths.
use nbos.Base.{
  ℕ, ◌≡◌, refl, Bool, true, false, not, ◌||◌, Option, none, some, List, ◌==◌, leb, if◌then◌else◌,
}
use nbos.File.Content.{OpenFile}
use nbos.File.Table.{file_max_in_process, have_access}
use nbos.Process.{IntrContext}
use nbos.Screen.{Screen, print}
use nbos.Syscall.{
  Machine, Outcome, ret, stuck, undefined, Opened, closed, wild, entry, opened, text_at, printed,
  error, write_opened, no_inode, write_entry, sys_write, o_wronly, o_rdwr,
}

-- If the call returns, the process tables, the memory and the keyboard are as they were, and one of
-- the screen and the file system.
abbrev pub KeepsProcess : Machine → Outcome → Type 0
KeepsProcess m (ret a m') =
    (m'.kernel ≡ m.kernel) × (m'.memory ≡ m.memory) × (m'.keyboard ≡ m.keyboard)
KeepsProcess m stuck = Unit
KeepsProcess m undefined = Unit

either :
    (m : Machine) (b : Bool) (x y : Outcome)
    → KeepsProcess m x
    → KeepsProcess m y
    → KeepsProcess m (if b then x else y)
either m true x y first second = first
either m false x y first second = second

printed-Keeps :
    (text : Option (List ℕ)) (size : ℕ) (m : Machine) → KeepsProcess m (printed text size m)
printed-Keeps none size m = tt
printed-Keeps (some text) size m = shown (print text m.screen)
  where
    shown :
        (s : Option Screen)
        → KeepsProcess m (elim s [ none ↦ stuck | some s' ↦ ret size (record m { screen = s' }) ])
    shown none = tt
    shown (some s') = (refl, refl, refl)

write_opened-Keeps :
    (index : ℕ) (file : OpenFile) (buf size : ℕ) (m : Machine)
    → KeepsProcess m (write_opened index file buf size m)
unfolding write_opened
write_opened-Keeps index file buf size m =
    either m (no_inode file) (error m) _ (refl, refl, refl) (refl, refl, refl)

-- Whatever the arguments are, a call of `sys_write` that returns, with an error or not, leaves the
-- process tables, the memory of the process and the keyboard as they were.
pub sys_write-KeepsProcess :
    (bound : ℕ) (ptr : IntrContext) (m : Machine) → KeepsProcess m (sys_write bound ptr m)
unfolding sys_write
sys_write-KeepsProcess bound ptr m =
    either m (leb file_max_in_process ptr.ebx || ptr.ecx == 0) (error m) _ (refl, refl, refl)
      (through_entry (opened ptr.ebx m))
  where
    through_entry : (o : Opened) → KeepsProcess m (write_entry bound ptr m o)
    through_entry closed = (refl, refl, refl)
    through_entry wild = tt
    through_entry (entry index file) =
        either m (not (have_access file o_wronly || have_access file o_rdwr)) (error m) _
          (refl, refl, refl)
          (either m (ptr.ebx == 1 || ptr.ebx == 2) _ _
            (printed-Keeps (text_at bound m.memory ptr.ecx) ptr.edx m)
            (write_opened-Keeps index file ptr.ecx ptr.edx m))

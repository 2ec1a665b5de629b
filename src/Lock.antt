-- ===== src/Lock.antt =====
-- lock.c and `xchg` of x86.c: the lock on the screen and the one on the disk.
mod Tests
pub mod Exclusion
use nbos.Base.{ℕ, Bool, true, false, Option, none, some, ◌==◌, if◌then◌else◌}

-- `struct lock`
pub record Lock : Type 0 where
  pub value : ℕ

-- `video_lock` and `disk_lock`.
unfoldable pub init_lock : Lock × Lock
init_lock = (record { value = 0 }, record { value = 0 })

-- `xchg(&lock->value, i)`: the value before, and the lock after it. It is one instruction.
unfoldable pub xchg : Lock → ℕ → ℕ × Lock
xchg lock i = (lock.value, record lock { value = i })

-- One round of `acquire`: whether its loop ends, and the lock.
unfoldable pub try_acquire : Lock → Bool × Lock
unfolding xchg
try_acquire lock = let (old, lock') = xchg lock 1 in (old == 0, lock')

unfoldable pub release : Lock → Lock
release lock = record lock { value = 0 }

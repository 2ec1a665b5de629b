-- ===== src/Lock/Tests.antt =====
-- Two processes that take turns with a lock.
use nbos.Base.{ℕ, ◌≡◌, refl, false}
use nbos.Lock.{init_lock, try_acquire, release, xchg}
use nbos.Lock.Exclusion.{
  System, acquires, releases, Steps, done, more, start, enter_if, acquire-exclusive,
}

abbrev first : System
first = enter_if 1 (start init_lock.0) (try_acquire init_lock.0)

abbrev second : System
second = enter_if 1 first (false, release first.lock)

abbrev third : System
third = enter_if 2 second (try_acquire second.lock)

taking_turns : Steps (start init_lock.0) third
unfolding init_lock try_acquire release xchg
taking_turns = more (acquires 1 refl) (more (releases 1 refl) (more (acquires 2 refl) done))

abbrev holder : ℕ
holder = 2

acquire-exclusive_example : holder ≡ holder
unfolding init_lock try_acquire release xchg
acquire-exclusive_example = acquire-exclusive init_lock.0 third holder holder taking_turns refl refl

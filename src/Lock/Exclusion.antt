-- ===== src/Lock/Exclusion.antt =====
-- Processes that take and release a lock, in any order of their steps.
use nbos.Base.{ℕ, ◌≡◌, refl, arith, Bool, true, false, ◌==◌, if◌then◌else◌}
use nbos.Lock.{Lock, try_acquire, release}

-- The lock, and which processes are between `acquire` and `release`.
pub record System : Type 0 where
  pub lock : Lock
  pub inside : ℕ → Bool

abbrev pub enter_if : ℕ → System → Bool × Lock → System
enter_if p s (ended, lock) = record {
  lock = lock;
  inside = λ q. if q == p then ended else s.inside q;
}

-- A process outside makes one round of `acquire`'s loop; a process inside calls `release`.
pub data Step : System → System → Type 0 where
  acquires : {s : System} (p : ℕ) → s.inside p ≡ false → Step s (enter_if p s (try_acquire s.lock))
  releases :
      {s : System} (p : ℕ) → s.inside p ≡ true → Step s (enter_if p s (false, release s.lock))

pub data Steps : System → System → Type 0 where
  done : {s : System} → Steps s s
  more : {s t u : System} → Step s t → Steps t u → Steps s u

-- A lock with no process inside.
abbrev pub start : Lock → System
start lock = record { lock = lock; inside = λ p. false }

-- At most one process is inside, and none where the lock is free.
pub record Exclusive (s : System) : Type 0 where
  pub one : (p q : ℕ) → s.inside p ≡ true → s.inside q ≡ true → p ≡ q
  pub free : s.lock.value ≡ 0 → (p : ℕ) → s.inside p ≡ false

module _ (inside : ℕ → Bool) (v p : ℕ) (one : (a b : ℕ) → inside a ≡ true → inside b ≡ true → a ≡ b)
    (free : v ≡ 0 → (a : ℕ) → inside a ≡ false) where
  one-acquire :
      (a b : ℕ)
      → (if a == p then v == 0 else inside a) ≡ true
      → (if b == p then v == 0 else inside b) ≡ true
      → a ≡ b
  one-acquire a b ha hb =
      ground (arith, one a b, (λ (e : v ≡ 0). free e a), (λ (e : v ≡ 0). free e b))

  one-release :
      (a b : ℕ)
      → (if a == p then false else inside a) ≡ true
      → (if b == p then false else inside b) ≡ true
      → a ≡ b
  one-release a b ha hb = ground (arith, one a b)

  none-release : (a : ℕ) → inside p ≡ true → (if a == p then false else inside a) ≡ false
  none-release a in_p = ground (arith, one a p)

Step-Exclusive : {s t : System} → Step s t → Exclusive s → Exclusive t
unfolding try_acquire release
Step-Exclusive (acquires {s} p out) ex = record {
  one = one-acquire s.inside s.lock.value p ex.one ex.free;
  free = λ e a. absurd (omega arith);
}
Step-Exclusive (releases {s} p in_p) ex = record {
  one = one-release s.inside s.lock.value p ex.one ex.free;
  free = λ e a. none-release s.inside s.lock.value p ex.one ex.free a in_p;
}

Steps-Exclusive : {s t : System} → Steps s t → Exclusive s → Exclusive t
Steps-Exclusive done ex = ex
Steps-Exclusive (more step rest) ex = Steps-Exclusive rest (Step-Exclusive step ex)

start-Exclusive : (lock : Lock) → Exclusive (start lock)
start-Exclusive lock = record { one = λ p q hp hq. cc hp; free = λ e p. refl }

-- However the steps of the processes interleave, from a lock that no process holds, no two processes
-- are ever at once between `acquire` and `release` of it.
pub acquire-exclusive :
    (lock : Lock) (t : System) (p q : ℕ)
    → Steps (start lock) t
    → t.inside p ≡ true
    → t.inside q ≡ true
    → p ≡ q
acquire-exclusive lock t p q steps hp hq =
    (Steps-Exclusive steps (start-Exclusive lock)).one p q hp hq

-- ===== src/Process/Pid.antt =====
-- `getPid` ends, and the process id that it finds is not in use.
use nbos.Base.{
  ℕ, zero, suc, ◌+◌, ◌≤◌, ◌<◌, ◌≡◌, ◌≢◌, refl, arith, true, false, ◌==◌, ltb, Option, none, some,
  List, [], ◌∷◌, length, Bool-cases, inl, inr, if◌then◌else◌,
}
use mathlib.Core.Path.{subst, sym, ap}
use native.Mathlib.Decide.{dec_lt, ℕ_discrete}
use nbos.Process.{Pcb, pcb_max, pid_max, in_use, take_pid, get_pid}

-- The processes whose id is not `t`.
without : ℕ → List Pcb → List Pcb
without t [] = []
without t (p ∷ ps) = let rest = without t ps in if p.pid == t then rest else p ∷ rest

length-without : (t : ℕ) (ps : List Pcb) → length (without t ps) ≤ length ps
unfolding without
length-without t [] = omega arith
length-without t (p ∷ ps) = ground (arith, length-without t ps)

length-without_lt : (t : ℕ) (ps : List Pcb) → in_use t ps ≡ true → length (without t ps) < length ps
unfolding without in_use
length-without_lt t [] h = cc
length-without_lt t (p ∷ ps) h = ground (arith, length-without t ps, length-without_lt t ps)

in_use-without : (t k : ℕ) (ps : List Pcb) → k ≢ t → in_use k (without t ps) ≡ in_use k ps
unfolding without in_use
in_use-without t k [] ne = refl
in_use-without t k (p ∷ ps) ne = ground (arith, in_use-without t k ps ne)

-- Of `m` ids in a row, more than there are processes, one is not in use.
unused_id :
    (m lo : ℕ) (ps : List Pcb)
    → length ps < m
    → (k : ℕ) × (lo ≤ k) × (k < lo + m) × (in_use k ps ≡ false)
unused_id zero lo ps h = absurd (omega arith)
unused_id (suc m) lo ps h = elim (Bool-cases (in_use (lo + m) ps)) [
  | inr unused ↦ (lo + m, omega arith, omega arith, unused)
  | inl used ↦
      let (k, ge, lt, unused) =
        unused_id m lo (without (lo + m) ps) (omega (arith, length-without_lt (lo + m) ps used)) in
      (k, ge, omega arith, ground (arith, in_use-without (lo + m) k ps))
]

-- What `getPid` finds: an unused id, which is returned unless it is `PID_MAX`.
abbrev pub Found : List Pcb → Option (Option ℕ × ℕ) → Type 0
Found ps r =
    (pid : ℕ) × (nextpid : ℕ) × (r ≡ some ((if ltb pid pid_max then some pid else none), nextpid))
    × (in_use pid ps ≡ false)
    × (1 ≤ pid)
    × (pid ≤ pid_max)
    × (1 ≤ nextpid)
    × (nextpid ≤ pid_max + 1)

take_pid-le : (n : ℕ) → n ≤ pid_max → take_pid n ≡ (n, n + 1)
unfolding take_pid
take_pid-le n h = ground arith

take_pid-gt : (n : ℕ) → pid_max < n → take_pid n ≡ (1, 1)
unfolding take_pid
take_pid-gt n h = ground arith

module _ (ps : List Pcb) where
  -- The pass that finds its id unused is the last.
  stop :
      (fuel n pid nextpid : ℕ)
      → take_pid n ≡ (pid, nextpid)
      → in_use pid ps ≡ false
      → 1 ≤ pid
      → pid ≤ pid_max
      → 1 ≤ nextpid
      → nextpid ≤ pid_max + 1
      → Found ps (get_pid (suc fuel) ps n)
  unfolding get_pid
  stop fuel n pid nextpid e unused lo hi lo' hi' =
      (pid, nextpid, rw (e, unused), unused, lo, hi, lo', hi')

  again :
      (fuel n pid nextpid : ℕ)
      → take_pid n ≡ (pid, nextpid)
      → in_use pid ps ≡ true
      → Found ps (get_pid fuel ps nextpid)
      → Found ps (get_pid (suc fuel) ps n)
  unfolding get_pid
  again fuel n pid nextpid e used found =
      let skip : get_pid (suc fuel) ps n ≡ get_pid fuel ps nextpid = rw (e, used) in
      subst (Found ps) (sym skip) found

  -- From an id up to an unused one.
  upwards :
      (t : ℕ)
      → t ≤ pid_max
      → in_use t ps ≡ false
      → (fuel n : ℕ) → 1 ≤ n
      → n ≤ t
      → t < n + fuel
      → Found ps (get_pid fuel ps n)
  upwards t top unused zero n lo le h = absurd (omega arith)
  upwards t top unused (suc fuel) n lo le h = elim (Bool-cases (in_use n ps)) [
    | inr here ↦
        stop fuel n n (n + 1) (take_pid-le n (omega arith)) here lo (omega arith) (omega arith)
          (omega arith)
    | inl used ↦ elim (ℕ_discrete n t) [
      | yes e ↦ cc (ap (λ k. in_use k ps) e, unused, used)
      | no ne ↦
          again fuel n n (n + 1) (take_pid-le n (omega arith)) used
            (upwards t top unused fuel (n + 1) (omega arith) (omega arith) (omega arith))
    ]
  ]

  -- Past the last id the search starts again at 1.
  wrap :
      (t : ℕ)
      → 1 ≤ t
      → t ≤ 21
      → in_use t ps ≡ false
      → (fuel n : ℕ) → 1 ≤ n
      → 84 ≤ n + fuel
      → 22 ≤ fuel
      → Found ps (get_pid fuel ps n)
  wrap t one top unused zero n lo h f = absurd (omega arith)
  wrap t one top unused (suc fuel) n lo h f = elim (dec_lt 60 n) [
    | yes over ↦ elim (Bool-cases (in_use 1 ps)) [
      | inr here ↦
          stop fuel n 1 1 (take_pid-gt n over) here (omega arith) (omega arith) (omega arith)
            (omega arith)
      | inl used ↦
          again fuel n 1 1 (take_pid-gt n over) used
            (upwards t (omega arith) unused fuel 1 (omega arith) one (omega arith))
    ]
    | no within ↦ elim (Bool-cases (in_use n ps)) [
      | inr here ↦
          stop fuel n n (n + 1) (take_pid-le n (omega arith)) here lo (omega arith) (omega arith)
            (omega arith)
      | inl used ↦
          again fuel n n (n + 1) (take_pid-le n (omega arith)) used
            (wrap t one top unused fuel (n + 1) (omega arith) (omega arith) (omega arith))
    ]
  ]

-- `getPid` ends within 83 passes, wherever from 1 on it starts, if there are at most `PCB_MAX`
-- processes. The id that it stops at lies between 1 and `PID_MAX` and no process has it; it is
-- returned if it is less than `PID_MAX`, and otherwise the result is -1.
pub get_pid_total :
    (ps : List Pcb) (nextpid : ℕ)
    → length ps ≤ pcb_max
    → 1 ≤ nextpid
    → Found ps (get_pid 83 ps nextpid)
get_pid_total ps nextpid few lo =
    let (t, one, top, unused) = unused_id 21 1 ps (omega arith) in
    wrap ps t one (omega arith) unused 83 nextpid lo (omega arith) (omega arith)

-- ===== src/Process/Table.antt =====
-- The list of process blocks: searches, writes, and what `init_pcb` and `allocProcess` do to it.
use nbos.Base.{
  ℕ, zero, suc, ◌+◌, ◌-◌, ◌≤◌, ◌≡◌, ◌≢◌, refl, arith, Bool, true, false, none, some, List, [], ◌∷◌,
  length, get_elem?, Bool-cases, inl, inr, ap, ◌∙◌, ltb, if◌then◌else◌,
}
use nbos.Process.{
  Pcb, Kernel, RunState, is_free, first_index, update, in_use, current_pid, claim, alloc_process,
  null, fault, block, pcb_max, pid_max,
}
use nbos.Process.Pid.{get_pid_total}

pub get_elem?-update_self :
    (i : ℕ) (f : Pcb → Pcb) (ps : List Pcb) {p : Pcb}
    → get_elem? ps i ≡ some p
    → get_elem? (update i f ps) i ≡ some (f p)
unfolding update
get_elem?-update_self i f [] h = cc
get_elem?-update_self zero f (q ∷ ps) h = ground arith
get_elem?-update_self (suc i) f (q ∷ ps) h = get_elem?-update_self i f ps h

pub get_elem?-update_ne :
    (i j : ℕ) (f : Pcb → Pcb) (ps : List Pcb) → j ≢ i → get_elem? (update i f ps) j ≡ get_elem? ps j
unfolding update
get_elem?-update_ne i j f [] ne = refl
get_elem?-update_ne zero zero f (q ∷ ps) ne = absurd (ne refl)
get_elem?-update_ne zero (suc j) f (q ∷ ps) ne = refl
get_elem?-update_ne (suc i) zero f (q ∷ ps) ne = refl
get_elem?-update_ne (suc i) (suc j) f (q ∷ ps) ne =
    get_elem?-update_ne i j f ps (λ e. ne (ap suc e))

pub length-update : (i : ℕ) (f : Pcb → Pcb) (ps : List Pcb) → length (update i f ps) ≡ length ps
unfolding update
length-update i f [] = refl
length-update zero f (p ∷ ps) = refl
length-update (suc i) f (p ∷ ps) = ap suc (length-update i f ps)

-- A search that succeeds has found a process that passes the test, and none before it does.
pub first_index-some :
    (test : Pcb → Bool) (o : ℕ) (ps : List Pcb) {i : ℕ}
    → first_index test o ps ≡ some i
    → (o ≤ i) × ((p : Pcb) × (get_elem? ps (i - o) ≡ some p) × (test p ≡ true))
unfolding first_index
first_index-some test o [] h = cc
first_index-some test o (p ∷ ps) {i} h = elim (Bool-cases (test p)) [
  | inl yes_p ↦
      let here : o ≡ i = ground arith in
      let at : i - o ≡ 0 = omega arith in (omega arith, (p, rw at, yes_p))
  | inr no_p ↦
      let found = first_index-some test (o + 1) ps {i = i} (ground arith) in
      let at : i - o ≡ suc (i - (o + 1)) = omega (arith, found.0) in
      (omega (arith, found.0), (found.1.0, rw at found.1.1, found.1.2))
]

pub first_index-found :
    (test : Pcb → Bool) (ps : List Pcb) {i : ℕ}
    → first_index test 0 ps ≡ some i
    → (p : Pcb) × (get_elem? ps i ≡ some p) × (test p ≡ true)
first_index-found test ps {i} h =
    let (_, (p, at, passes)) = first_index-some test 0 ps h in
    let start : i ≡ i - 0 = omega arith in (p, ap (get_elem? ps) start ∙ at, passes)

module _ (k : Kernel) (few : length k.pcblist ≤ pcb_max) (lo : 1 ≤ k.nextpid) where
  -- With at most `PCB_MAX` processes, one of them free, and `nextpid` from 1 on, `allocProcess`
  -- claims the first free process block `i`: the block becomes runnable, the current process is
  -- its father, and its id was not in use. Every other block `j` stays. Where the unused id is
  -- `PID_MAX`, the result is NULL, and no block is touched.
  pub alloc_process_lem :
      (i j : ℕ)
      → first_index (λ p. is_free p.pstate) 0 k.pcblist ≡ some i
      → j ≢ i
      → (pid : ℕ) × (nextpid : ℕ) × (p : Pcb) × (in_use pid k.pcblist ≡ false)
        × (get_elem? k.pcblist i ≡ some p)
        × (is_free p.pstate ≡ true)
        × (alloc_process k
            ≡ (if ltb pid pid_max then block i (claim k i pid nextpid) else null nextpid))
        × (get_elem? (claim k i pid nextpid).pcblist i
            ≡ some (record p { pstate = RunState.runnable; pid = pid; father_pid = current_pid k }))
        × (get_elem? (claim k i pid nextpid).pcblist j ≡ get_elem? k.pcblist j)
  unfolding alloc_process claim
  alloc_process_lem i j found ne =
      let (pid, nextpid, e, unused, _, _, _, _) = get_pid_total k.pcblist k.nextpid few lo in
      let (p, at, idle) = first_index-found _ k.pcblist found in
      (
        pid,
        nextpid,
        p,
        unused,
        at,
        idle,
        ground (arith, e, found),
        get_elem?-update_self i _ k.pcblist at,
        get_elem?-update_ne i j _ k.pcblist ne,
      )

  -- With at most `PCB_MAX` processes, none of them free, and `nextpid` from 1 on, `allocProcess`
  -- writes through NULL, unless the id is `PID_MAX`.
  pub alloc_process_full :
      first_index (λ p. is_free p.pstate) 0 k.pcblist ≡ none
      → (pid : ℕ) × (nextpid : ℕ) × (in_use pid k.pcblist ≡ false)
        × (alloc_process k ≡ (if ltb pid pid_max then fault else null nextpid))
  unfolding alloc_process
  alloc_process_full full =
      let (pid, nextpid, e, unused, _, _, _, _) = get_pid_total k.pcblist k.nextpid few lo in
      (pid, nextpid, unused, ground (arith, e, full))

-- ===== src/Process/Wait.antt =====
-- `haveChildren` of process.c and `sys_wait` of syscall.c.
use nbos.Base.{
  ℕ, zero, ◌+◌, ◌≡◌, ◌≢◌, refl, arith, Bool, true, false, ◌&&◌, ◌==◌, none, some, List, [], ◌∷◌,
  get_elem?, if◌then◌else◌, ap, ◌∙◌, Bool-cases, inl, inr,
}
use nbos.Base.Int.{ℤ, pos, negsuc, sub_ℕ, ◌+ℤ◌}
use nbos.Process.{Pcb, Kernel, RunState, is_zombie, first_index, update, current_pid}
use nbos.Process.Table.{first_index-found, get_elem?-update_self, get_elem?-update_ne}

-- The loop of `haveChildren` over the list, with the counter so far.
unfoldable pub count_children : ℕ → ℤ → List Pcb → ℤ
count_children pid child [] = child
count_children pid child (p ∷ ps) =
    count_children pid (if p.father_pid == pid then child +ℤ pos 1 else child) ps

-- The counter starts at -1.
unfoldable pub have_children : ℕ → List Pcb → ℤ
have_children pid ps = count_children pid (negsuc 0) ps

abbrev pub is_zero : ℤ → Bool
is_zero (pos zero) = true
is_zero _ = false

-- What a call of `sys_wait` does: the result -1, a round of the endless loop that finds no child to
-- reap, or the pid of a child and the list with its block cleared.
pub data WaitResult : Type 0 where
  failed : WaitResult
  polling : WaitResult
  reaped : ℕ → Kernel → WaitResult

abbrev pub cleared : Pcb → Pcb
cleared p = record p {
  pagedir = 0;
  pstate = RunState.free;
  father_pid = 0;
  pid = 0;
  next_vir_addr = 0;
}

abbrev pub zombie_child : ℕ → Pcb → Bool
zombie_child pid p = (p.father_pid == pid) && is_zombie p.pstate

-- One round of the search for a terminated child.
unfoldable pub reap : ℕ → Kernel → WaitResult
reap pid k = elim (first_index (zombie_child pid) 0 k.pcblist) [
  | none ↦ polling
  | some i ↦ elim (get_elem? k.pcblist i) [
    | none ↦ polling
    | some p ↦ reaped p.pid (record k { pcblist = update i cleared k.pcblist })
  ]
]

unfoldable pub sys_wait : Kernel → WaitResult
sys_wait k =
    let pid = current_pid k in if is_zero (have_children pid k.pcblist) then failed else reap pid k

-- The processes whose father is `pid`.
abbrev pub children : ℕ → List Pcb → ℕ
children pid [] = 0
children pid (p ∷ ps) = (if p.father_pid == pid then 1 else 0) + children pid ps

count_children-add :
    (pid n : ℕ) (ps : List Pcb) → count_children pid (sub_ℕ n 1) ps ≡ sub_ℕ (n + children pid ps) 1
unfolding count_children ◌+ℤ◌
count_children-add pid n [] = ap (λ m. sub_ℕ m 1) (omega arith)
count_children-add pid n (p ∷ ps) =
    let one_more : sub_ℕ n 1 +ℤ pos 1 ≡ sub_ℕ (n + 1) 1 = ground arith in
    elim (Bool-cases (p.father_pid == pid)) [
      | inl own ↦
          rw (own, one_more) (count_children-add pid (n + 1) ps ∙ ap (λ m. sub_ℕ m 1) (omega arith))
      | inr not_own ↦ rw not_own (count_children-add pid n ps ∙ ap (λ m. sub_ℕ m 1) (omega arith))
    ]

-- `haveChildren` returns one less than the number of children.
pub have_children-children :
    (pid : ℕ) (ps : List Pcb) → have_children pid ps ≡ sub_ℕ (children pid ps) 1
unfolding have_children
have_children-children pid ps = count_children-add pid 0 ps ∙ ap (λ n. sub_ℕ n 1) (omega arith)

no_zombie :
    (pid o : ℕ) (ps : List Pcb) → children pid ps ≡ 0 → first_index (zombie_child pid) o ps ≡ none
unfolding first_index
no_zombie pid o [] h = refl
no_zombie pid o (p ∷ ps) h = ground (arith, no_zombie pid (o + 1) ps)

-- A process with exactly one child cannot wait for it: `sys_wait` returns -1, whether or not the
-- child has terminated.
pub sys_wait_only_child :
    (k : Kernel) → children (current_pid k) k.pcblist ≡ 1 → sys_wait k ≡ failed
unfolding sys_wait
sys_wait_only_child k one = rw (have_children-children (current_pid k) k.pcblist, one)

-- A process with no children is not told so: `sys_wait` enters its loop, and each round finds
-- nothing.
pub sys_wait_no_child : (k : Kernel) → children (current_pid k) k.pcblist ≡ 0 → sys_wait k ≡ polling
unfolding sys_wait reap
sys_wait_no_child k zero_children = rw (
  have_children-children (current_pid k) k.pcblist,
  zero_children,
  reap,
  no_zombie (current_pid k) 0 k.pcblist zero_children,
)

zombie_child-parts :
    (pid : ℕ) (p : Pcb)
    → zombie_child pid p ≡ true
    → (p.father_pid ≡ pid) × (p.pstate ≡ RunState.zombie)
zombie_child-parts pid p h = (ground arith, ground arith)

-- With another number of children than one, `sys_wait` reaps the first terminated child `i`: it
-- returns that child's pid and makes its block free, with no id, no father and no page directory; it leaves
-- every other block `j` alone.
pub sys_wait_lem :
    (k : Kernel) (i j : ℕ)
    → children (current_pid k) k.pcblist ≢ 1
    → first_index (zombie_child (current_pid k)) 0 k.pcblist ≡ some i
    → j ≢ i
    → (p p' : Pcb) × (k' : Kernel) × (sys_wait k ≡ reaped p.pid k')
      × (get_elem? k.pcblist i ≡ some p)
      × ((p.father_pid ≡ current_pid k) × (p.pstate ≡ RunState.zombie))
      × ((get_elem? k'.pcblist i ≡ some p')
          × (p'.pstate ≡ RunState.free)
          × (p'.pid ≡ 0)
          × (p'.father_pid ≡ 0)
          × (p'.pagedir ≡ 0))
      × (get_elem? k'.pcblist j ≡ get_elem? k.pcblist j)
unfolding sys_wait reap
sys_wait_lem k i j ne found other =
    let (p, at, dead) = first_index-found _ k.pcblist found in
    (
      p,
      cleared p,
      record k { pcblist = update i cleared k.pcblist },
      ground (arith, have_children-children (current_pid k) k.pcblist, found, at),
      at,
      zombie_child-parts (current_pid k) p dead,
      (get_elem?-update_self i cleared k.pcblist at, refl, refl, refl, refl),
      get_elem?-update_ne i j cleared k.pcblist other,
    )

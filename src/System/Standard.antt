-- ===== src/System/Standard.antt =====
-- Descriptors in the states that the kernel reaches: none leads astray, and the standard ones are closed.
use nbos.Base.{
  ℕ, zero, suc, ◌≤◌, ◌<◌, ◌≡◌, ◌⊎◌, inl, inr, refl, ap, ◌∙◌, arith, Bool, true, false, ◌||◌, some,
  List, [], ◌∷◌, ◌==◌, leb, if◌then◌else◌, length, get_elem?, All-at, Bool-cases,
}
use nbos.File.Content.{OpenFile}
use nbos.File.Table.{file_max_in_process}
use nbos.Interrupt.{SysCall, Handler, interrupt_assign}
use nbos.Process.{Fd, IntrContext}
use nbos.Process.Load.{put_user}
use nbos.Syscall.{
  from, ret, read_entry, closed, entry, opened, entry_at, through, current_fd, sys_read, minus_one,
}
use nbos.System.{
  current_pagedir, seen, System, Env, back, machine, handle, system_call, from_read, filled,
  interrupt, hits, places, overwriting,
}
use nbos.System.Tables.{Leads, PcbFds}
use nbos.System.Reach.{Reach, Untouched, Reach-InOrder}

-- An element that lies in a list is there.
some_at {ℓ} :
    {A : Type ℓ} (xs : List A) (i : ℕ) → i < length xs → (x : A) × (get_elem? xs i ≡ some x)
some_at [] i lt = absurd (omega arith)
some_at (x ∷ xs) zero lt = (x, refl)
some_at (x ∷ xs) (suc i) lt = some_at xs i (omega arith)

module _ (e : Env) (s : System) (r : Reach s) (clean : Untouched r) (fd : ℕ)
    (lt : fd < file_max_in_process) where
  slot :
      (f : Fd) × (current_fd fd s.kernel ≡ some f)
      × ((f.open_flag ≡ 0) ⊎ Leads (length s.file_list) fd f)
  slot =
      let h = Reach-InOrder r clean in
      let (p, at) = some_at s.kernel.pcblist s.kernel.current h.current_in in
      let fds = All-at (PcbFds (length s.file_list)) s.kernel.pcblist s.kernel.current h.every at in
      let (f, here) = some_at p.fdlist fd (omega (arith, fds.count)) in
      (f, rw (current_fd, at) here, fds.each fd f here)

  pub opened_tame :
      (opened fd (machine e s) ≡ closed)
      ⊎ ((3 ≤ fd)
          × (index : ℕ) × (file : OpenFile) × (get_elem? s.file_list index ≡ some file)
          × (opened fd (machine e s) ≡ entry index file))
  unfolding opened
  opened_tame =
      let (f, at, fine) = slot in
      elim fine [
        | inl shut ↦ inl (rw (opened, at, through, shut) refl)
        | inr leads ↦
            let (file, there) = some_at s.file_list leads.index leads.inside in
            elim (Bool-cases (f.open_flag == 0)) [
              | inl shut ↦ inl (rw (opened, at, through, shut) refl)
              | inr open_now ↦ inr (
                leads.above,
                leads.index,
                file,
                there,
                rw (opened, at, through, open_now, entry_at, leads.leads, there) refl,
              )
            ]
      ]

-- In such a state, the three standard descriptors of the current process are closed.
standard_closed :
    (e : Env) (s : System) (r : Reach s)
    → Untouched r
    → (fd : ℕ) → fd < 3
    → opened fd (machine e s) ≡ closed
standard_closed e s r clean fd lt = elim (opened_tame e s r clean fd (omega (arith, lt))) [
  | inl shut ↦ shut
  | inr (above, _, _, _, _) ↦ absurd (omega (arith, above, lt))
]

either_same {ℓ} : {A : Type ℓ} (b : Bool) (x : A) → (if b then x else x) ≡ x
either_same true x = refl
either_same false x = refl

-- In such a state, a call of `sys_read` for the standard input comes back with -1 and changes nothing.
pub sys_read-standard :
    (e : Env) (s : System) (ptr : IntrContext) (r : Reach s)
    → Untouched r
    → ptr.inter_no ≡ 0x80
    → ptr.eax ≡ 3
    → ptr.ebx ≡ 0
    → interrupt e ptr s ≡ back (record ptr { eax = minus_one }) s
unfolding interrupt handle system_call interrupt_assign put_user sys_read hits
sys_read-standard e s ptr r clean vector number zero_fd =
    let chosen : interrupt_assign ptr.inter_no ptr.eax ≡ Handler.sys_call (some SysCall.sys_read) =
      rw (interrupt_assign, vector, number) in
    let nothing : filled ptr minus_one ≡ 0 = rw (filled, zero_fd) in
    ap (λ f. handle e f ptr s) chosen
    ∙ ap (from_read e ptr s) failed
    ∙ ap
        (λ n.
          if hits s.tables_at (places e s ptr.ecx) n
          then overwriting
          else back (record ptr { eax = minus_one })
              (record s {
                pages = record s.pages {
                  mem =
                      put_user e.walk (current_pagedir s.kernel) (from (seen e s) ptr.ecx) n ptr.ecx
                        s.pages.mem;
                };
              }))
        nothing
  where
    failed : sys_read ptr (machine e s) ≡ ret minus_one (machine e s)
    failed =
        ap
          (λ o.
            if leb file_max_in_process ptr.ebx || ptr.ecx == 0
            then ret minus_one (machine e s)
            else read_entry ptr (machine e s) o)
          (standard_closed e s r clean ptr.ebx (omega (arith, zero_fd)))
        ∙ either_same (leb file_max_in_process ptr.ebx || ptr.ecx == 0) _

-- ===== src/Syscall/Close.antt =====
-- `sys_close` on a descriptor that leads to an open file.
use nbos.Base.{
  ℕ, ◌<◌, ◌≡◌, ◌≢◌, refl, sym, ap, ◌∙◌, arith, false, ◌==◌, leb, some, List, get_elem?, set,
  get_elem?-inside, get_elem?-set_self, get_elem?-set_ne, Option-cases, Bool-cases, inl, inr,
}
use nbos.Base.Int.{pos}
use nbos.File.Content.{OpenFile}
use nbos.File.Table.{file_max_in_process, closed_fd, empty_entry, close_fd, sys_close, del_file}
use nbos.Process.{Fd, Pcb, Kernel, update}
use nbos.Process.Table.{get_elem?-update_self}
use nbos.Syscall.{Machine, closed, wild, entry, opened, through, current_fd, entry_at}

-- How a descriptor leads to an entry.
pub record Way (fd : ℕ) (m : Machine) (index : ℕ) (file : OpenFile) : Type 0 where
  pub process : Pcb
  pub slot : Fd
  pub current : get_elem? m.kernel.pcblist m.kernel.current ≡ some process
  pub here : get_elem? process.fdlist fd ≡ some slot
  pub open_now : (slot.open_flag == 0) ≡ false
  pub leads : slot.ofptr ≡ some index
  pub there : get_elem? m.file_list index ≡ some file

opened-Way :
    (fd : ℕ) (m : Machine) (index : ℕ) (file : OpenFile)
    → opened fd m ≡ entry index file
    → Way fd m index file
unfolding opened
opened-Way fd m index file leads_there =
    elim (Option-cases (get_elem? m.kernel.pcblist m.kernel.current)) [
      | inl e ↦ let lost : opened fd m ≡ wild = rw (opened, current_fd, e) in cc (lost, leads_there)
      | inr (p, e) ↦ elim (Option-cases (get_elem? p.fdlist fd)) [
        | inl missing ↦
            let lost : opened fd m ≡ wild = rw (opened, current_fd, e, missing) in
            cc (lost, leads_there)
        | inr (f, here) ↦
            let found : opened fd m ≡ through (some f) m.file_list =
              rw (opened, current_fd, e, here) in
            elim (Bool-cases (f.open_flag == 0)) [
              | inl shut ↦
                  let lost : through (some f) m.file_list ≡ closed = rw (through, shut) in
                  cc (found, lost, leads_there)
              | inr open_now ↦
                  let at : through (some f) m.file_list ≡ entry_at f.ofptr m.file_list =
                    rw (through, open_now) in
                  elim (Option-cases f.ofptr) [
                    | inl null ↦
                        let lost : entry_at f.ofptr m.file_list ≡ wild = rw (entry_at, null) in
                        cc (found, at, lost, leads_there)
                    | inr (n, leads) ↦ elim (Option-cases (get_elem? m.file_list n)) [
                      | inl behind ↦
                          let lost : entry_at f.ofptr m.file_list ≡ wild =
                            rw (entry_at, leads, behind) in
                          cc (found, at, lost, leads_there)
                      | inr (g, there) ↦
                          let last : entry_at f.ofptr m.file_list ≡ entry n g =
                            rw (entry_at, leads, there) in
                          let same_n : n ≡ index = cc (found, at, last, leads_there) in
                          let same_g : g ≡ file = cc (found, at, last, leads_there) in
                          record {
                            process = p;
                            slot = f;
                            current = e;
                            here = here;
                            open_now = open_now;
                            leads = leads ∙ ap some same_n;
                            there =
                                ap (get_elem? m.file_list) (sym same_n) ∙ there ∙ ap some same_g;
                          }
                    ]
                  ]
            ]
      ]
    ]

-- The process tables after the descriptor `fd` was closed.
abbrev pub closed_in : ℕ → Kernel → Kernel
closed_in fd k = record k {
  pcblist = update k.current (λ q. record q { fdlist = set q.fdlist fd closed_fd }) k.pcblist;
}

module _ (fd index : ℕ) (m : Machine) (file : OpenFile) (w : Way fd m index file) where
  abbrev after : Machine
  after = record m { kernel = closed_in fd m.kernel; file_list = set m.file_list index empty_entry }

  process_after :
      (p : Pcb)
      → get_elem? m.kernel.pcblist m.kernel.current ≡ some p
      → get_elem? after.kernel.pcblist m.kernel.current
        ≡ some (record p { fdlist = set p.fdlist fd closed_fd })
  process_after p at = get_elem?-update_self m.kernel.current _ m.kernel.pcblist at

  close_run :
      fd < file_max_in_process
      → sys_close (pos fd) m.kernel m.file_list ≡ some (after.kernel, after.file_list)
  unfolding sys_close del_file
  close_run lt =
      let inside : leb file_max_in_process fd ≡ false = ground arith in
      rw (inside, close_fd, w.current, w.here, w.open_now, w.leads) refl

  closed_after : opened fd after ≡ closed
  unfolding opened
  closed_after =
      let slot =
        get_elem?-set_self w.process.fdlist fd closed_fd
          (get_elem?-inside w.process.fdlist fd w.here) in
      rw (opened, current_fd, process_after w.process w.current, slot, through) refl

-- Let a descriptor of the current process `p` lead to an entry of the table of open files. Then `sys_close`
-- succeeds, and the descriptor is closed; the entry has the mark of a closed one and no inode, flags or
-- offset. The process's other descriptors `other` and the table's other entries `j` stay.
pub sys_close-closed :
    (fd other index j : ℕ) (m : Machine) (p : Pcb) (file : OpenFile)
    → fd < file_max_in_process
    → get_elem? m.kernel.pcblist m.kernel.current ≡ some p
    → opened fd m ≡ entry index file
    → other ≢ fd
    → j ≢ index
    → (k : Kernel) × (files : List OpenFile) × (p' : Pcb) × (left : OpenFile) × (sys_close
          (pos fd)
          m.kernel
          m.file_list
        ≡ some (k, files))
      × (opened fd (record m { kernel = k; file_list = files }) ≡ closed)
      × ((get_elem? files index ≡ some left)
          × (left.isopen ≡ 0)
          × (left.f_inode_block_no ≡ 0)
          × (left.f_inode_offset ≡ 0)
          × (left.oflags ≡ 0)
          × (left.offset ≡ 0))
      × ((get_elem? k.pcblist k.current ≡ some p')
          × (get_elem? p'.fdlist other ≡ get_elem? p.fdlist other))
      × (get_elem? files j ≡ get_elem? m.file_list j)
sys_close-closed fd other index j m p file lt current leads nf ni =
    let w = opened-Way fd m index file leads in
    (
      closed_in fd m.kernel,
      set m.file_list index empty_entry,
      record p { fdlist = set p.fdlist fd closed_fd },
      empty_entry,
      close_run fd index m file w lt,
      closed_after fd index m file w,
      (
        get_elem?-set_self m.file_list index empty_entry
            (get_elem?-inside m.file_list index w.there),
        refl,
        refl,
        refl,
        refl,
        refl,
      ),
      (
        process_after fd index m file w p current,
        get_elem?-set_ne p.fdlist closed_fd (λ e. nf (sym e)),
      ),
      get_elem?-set_ne m.file_list empty_entry (λ e. ni (sym e)),
    )

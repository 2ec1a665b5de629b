-- ===== src/Process/Space/Copy.antt =====
-- What `copy_process_mem` makes of a page: a page of its own with the same content.
use nbos.Base.{ℕ, ◌+◌, ◌%◌, ◌^◌, ◌≤◌, ◌<◌, ◌≡◌, ◌⊎◌, ap, ◌∙◌, arith, true}
use nbos.Base.Bytes.{read32, write32, read32-write32_self, write32_out}
use nbos.Memory.Copy.{move_within, move_within_at}
use nbos.Memory.Pages.{
  Pages, present, generate_item, item_address, vir_2_phy, phy_2_vir, alloc_page,
}
use nbos.Memory.Mapping.{phy_2_vir-entry, generate_item-lt}
use nbos.Process.Space.{copy_page, page_of}

-- The page at an address lies apart from `n` bytes at another.
abbrev pub PageApart : ℕ → ℕ → ℕ → Type 0
PageApart page a n = (a + n ≤ page) ⊎ (page + 4096 ≤ a)

-- The page that is next on the list of free pages.
pub record NextFree (s : Pages) : Type 0 where
  pub kernel : 0xc000_0000 ≤ s.free_list
  pub word : s.free_list < 2 ^ 32
  pub aligned : s.free_list % 4096 ≡ 0

module _ (entry : ℕ) (s : Pages) (next : NextFree s) (there : present (read32 s.mem entry) ≡ true)
    (entry_apart : PageApart s.free_list entry 4)
    (old_apart : PageApart s.free_list (page_of entry s.mem) 4096) where
  copy_page_eq : copy_page entry s ≡ record {
    mem =
        write32
          (move_within s.mem (page_of entry s.mem) s.free_list 4096)
          entry
          (generate_item (vir_2_phy s.free_list) 1);
    free_list = read32 s.mem s.free_list;
  }
  unfolding copy_page alloc_page
  copy_page_eq = rw there

  pub copy_page-free_list : (copy_page entry s).free_list ≡ read32 s.mem s.free_list
  copy_page-free_list = ap (λ (t : Pages). t.free_list) copy_page_eq

  -- Outside the entry, only the new page's bytes change.
  pub copy_page_at :
      (a : ℕ)
      → (a < entry) ⊎ (entry + 4 ≤ a)
      → (copy_page entry s).mem a ≡ move_within s.mem (page_of entry s.mem) s.free_list 4096 a
  copy_page_at a out =
      ap (λ (t : Pages). t.mem a) copy_page_eq
      ∙ write32_out (move_within s.mem (page_of entry s.mem) s.free_list 4096) entry _ a out

  pub copy_page-entry : (page_of entry (copy_page entry s).mem ≡ s.free_list)
  copy_page-entry =
      ap (λ (t : Pages). page_of entry t.mem) copy_page_eq
      ∙ ap (λ (item : ℕ). phy_2_vir (item_address item))
          (read32-write32_self (move_within s.mem (page_of entry s.mem) s.free_list 4096) entry _
            (generate_item-lt s.free_list 1))
      ∙ phy_2_vir-entry s.free_list 1 next.kernel next.word next.aligned

  pub copy_page-new :
      (k : ℕ)
      → k < 4096
      → (copy_page entry s).mem (s.free_list + k) ≡ s.mem (page_of entry s.mem + k)
  copy_page-new k lt =
      copy_page_at (s.free_list + k) (omega arith)
      ∙ move_within_at 4096 s.mem (page_of entry s.mem) s.free_list (s.free_list + k) (omega arith)
      ∙ ground arith

  pub copy_page-rest :
      (a : ℕ)
      → (a < entry) ⊎ (entry + 4 ≤ a)
      → PageApart s.free_list a 1
      → (copy_page entry s).mem a ≡ s.mem a
  copy_page-rest a out apart =
      copy_page_at a out
      ∙ move_within_at 4096 s.mem (page_of entry s.mem) s.free_list a (omega arith)
      ∙ ground arith

-- For an entry that names a page, let the next free page lie apart from the entry and from this page, which
-- lies apart from the entry. Then the entry names the free page afterwards, whose byte `k` is the one of
-- the old page, and the old page keeps its byte `k`: the new process has the content in memory of its own.
pub copy_page-content :
    (entry k : ℕ) (s : Pages)
    → NextFree s
    → present (read32 s.mem entry) ≡ true
    → PageApart s.free_list entry 4
    → PageApart s.free_list (page_of entry s.mem) 4096
    → PageApart (page_of entry s.mem) entry 4
    → k < 4096
    → (page_of entry (copy_page entry s).mem ≡ s.free_list)
      × ((copy_page entry s).mem (page_of entry (copy_page entry s).mem + k)
          ≡ s.mem (page_of entry s.mem + k))
      × ((copy_page entry s).mem (page_of entry s.mem + k) ≡ s.mem (page_of entry s.mem + k))
copy_page-content entry k s next there entry_apart old_apart own_apart lt =
    let names = copy_page-entry entry s next there entry_apart old_apart in
    (
      names,
      ap (λ (p : ℕ). (copy_page entry s).mem (p + k)) names
          ∙ copy_page-new entry s next there entry_apart old_apart k lt,
      copy_page-rest entry s next there entry_apart old_apart (page_of entry s.mem + k)
          (omega arith) (omega arith),
    )

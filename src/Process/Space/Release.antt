-- ===== src/Process/Space/Release.antt =====
-- What `free_process_user_mem` leaves in the page directory.
use nbos.Base.{
  ℕ, zero, suc, ◌+◌, ◌*◌, ◌≤◌, ◌<◌, ◌≡◌, ◌⊎◌, inl, inr, refl, sym, ap, ◌∙◌, arith, true, Bool-cases,
}
use nbos.Base.Bytes.{Bytes, read32, read32_eq, write32_out}
use nbos.Memory.Pages.{Pages, present, free_page, phy_2_vir, item_address}
use nbos.Process.Space.{page_of, release_page, release_pages, release_table}

-- The first word of every page that one of the `n` entries names lies apart from the byte at `a`.
abbrev pub PagesApart : Bytes → ℕ → ℕ → ℕ → Type 0
PagesApart mem entry n a =
    (j : ℕ)
    → j < n
    → present (read32 mem (entry + j * 4)) ≡ true
    → (a < page_of (entry + j * 4) mem) ⊎ (page_of (entry + j * 4) mem + 4 ≤ a)

-- A page is handed back: the bytes apart from its first word stay.
release_page-keeps :
    (entry a : ℕ) (s : Pages)
    → (present (read32 s.mem entry) ≡ true
        → (a < page_of entry s.mem) ⊎ (page_of entry s.mem + 4 ≤ a))
    → (release_page entry s).mem a ≡ s.mem a
unfolding release_page free_page
release_page-keeps entry a s apart = elim (Bool-cases (present (read32 s.mem entry))) [
  | inl e ↦ rw e (write32_out s.mem (page_of entry s.mem) s.free_list a (apart e))
  | inr e ↦ rw e
]

-- The pages that the entries name lie apart from the entries themselves.
abbrev pub EntriesApart : Bytes → ℕ → ℕ → Type 0
EntriesApart mem entry n = (a : ℕ) → entry ≤ a → a < entry + n * 4 → PagesApart mem entry n a

-- The entries behind the first one are the same after its page was handed back.
module _ (entry n : ℕ) (s : Pages) (apart : EntriesApart s.mem entry (suc n)) where
  first_keeps : (a : ℕ) → PagesApart s.mem entry (suc n) a → (release_page entry s).mem a ≡ s.mem a
  first_keeps a free = release_page-keeps entry a s (λ there. at_first (free 0 (omega arith)) there)
    where
      same : entry + 0 * 4 ≡ entry
      same = omega arith

      at_first :
          (present (read32 s.mem (entry + 0 * 4)) ≡ true
            → (a < page_of (entry + 0 * 4) s.mem) ⊎ (page_of (entry + 0 * 4) s.mem + 4 ≤ a))
          → present (read32 s.mem entry) ≡ true
          → (a < page_of entry s.mem) ⊎ (page_of entry s.mem + 4 ≤ a)
      at_first h = rw same at h

  next_item :
      (j : ℕ)
      → j < n
      → read32 (release_page entry s).mem (entry + 4 + j * 4) ≡ read32 s.mem (entry + suc j * 4)
  next_item j lt =
      read32_eq (release_page entry s).mem s.mem (entry + 4 + j * 4)
        (keeps _ (omega arith) (omega arith)) (keeps _ (omega arith) (omega arith))
        (keeps _ (omega arith) (omega arith)) (keeps _ (omega arith) (omega arith))
      ∙ ap (read32 s.mem) (omega arith)
    where
      keeps :
          (b : ℕ)
          → entry + 4 + j * 4 ≤ b
          → b < entry + 4 + j * 4 + 4
          → (release_page entry s).mem b ≡ s.mem b
      keeps b lo hi = first_keeps b (apart b (omega arith) (omega arith))

  rest_apart :
      (a : ℕ)
      → PagesApart s.mem entry (suc n) a
      → PagesApart (release_page entry s).mem (entry + 4) n a
  rest_apart a free j lt = rw (next_item j lt) (free (suc j) (omega arith))

release_pages-keeps :
    (n entry a : ℕ) (s : Pages)
    → EntriesApart s.mem entry n
    → PagesApart s.mem entry n a
    → (release_pages n entry s).mem a ≡ s.mem a
unfolding release_pages
release_pages-keeps zero entry a s apart free = refl
release_pages-keeps (suc n) entry a s apart free =
    release_pages-keeps n (entry + 4) a (release_page entry s)
      (λ b lo hi. rest_apart entry n s apart b (apart b (omega arith) (omega arith)))
      (rest_apart entry n s apart a free)
    ∙ first_keeps entry n s apart a free

-- For an entry of a page directory that names a page table, where the table lies apart from the entry,
-- and the pages that the table names lie apart from the table and from the entry: after the body of the
-- loop of `free_process_user_mem`, the table is the first free page, and the entry still names it.
pub release_table-still_named :
    (entry : ℕ) (s : Pages)
    → present (read32 s.mem entry) ≡ true
    → (entry + 4 ≤ page_of entry s.mem) ⊎ (page_of entry s.mem + 4 ≤ entry)
    → EntriesApart s.mem (page_of entry s.mem) 1024
    → ((a : ℕ) → entry ≤ a → a < entry + 4 → PagesApart s.mem (page_of entry s.mem) 1024 a)
    → (present (read32 (release_table entry s).mem entry) ≡ true)
      × (page_of entry (release_table entry s).mem ≡ (release_table entry s).free_list)
unfolding release_table free_page
release_table-still_named entry s there own apart outside =
    let table = page_of entry s.mem in
    let freed : release_table entry s ≡ free_page table (release_pages 1024 table s) = rw there in
    let keeps : (a : ℕ) → entry ≤ a → a < entry + 4 → (release_table entry s).mem a ≡ s.mem a =
      λ a lo hi.
        ap (λ (t : Pages). t.mem a) freed
        ∙ write32_out (release_pages 1024 table s).mem table _ a (omega arith)
        ∙ release_pages-keeps 1024 table a s apart (outside a lo hi) in
    let same : read32 (release_table entry s).mem entry ≡ read32 s.mem entry =
      read32_eq (release_table entry s).mem s.mem entry (keeps _ (omega arith) (omega arith))
        (keeps _ (omega arith) (omega arith)) (keeps _ (omega arith) (omega arith))
        (keeps _ (omega arith) (omega arith)) in
    (
      ap present same ∙ there,
      ap (λ (item : ℕ). phy_2_vir (item_address item)) same
          ∙ sym (ap (λ (t : Pages). t.free_list) freed),
    )

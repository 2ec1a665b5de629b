-- ===== src/Process/Space/Linked.antt =====
-- What `copy_process_mem` makes of an entry of the page directory: a page table of its own, in which each
-- page has a copy of its own.
use nbos.Base.{
  ℕ, suc, ◌+◌, ◌*◌, ◌%◌, ◌^◌, ◌≤◌, ◌<◌, ◌≡◌, ◌≢◌, ◌⊎◌, refl, sym, ap, ◌∙◌, arith, true, leb, ltb,
  ◌&&◌, ◌-◌, if◌then◌else◌,
}
use mathlib.Core.Path.{subst}
use nbos.Base.Bytes.{Bytes, read32, read32_eq, write32, write32_out, read32-write32_self}
use nbos.Memory.Copy.{fill, fill_at, move_within, move_within_at}
use nbos.Memory.Mapping.{phy_2_vir-entry, generate_item-lt}
use nbos.Memory.Pages.{
  Pages, present, generate_item, item_address, vir_2_phy, phy_2_vir, alloc_page,
}
use nbos.Process.Space.{copy_pages, copy_table, page_of, table_entries}
use nbos.Process.Space.Copy.{PageApart}
use nbos.Process.Space.Supply.{Supply}
use nbos.Process.Space.Tables.{Copied, copy_pages-keeps, copy_pages-Copied}

-- The entry at `entry` names a page table. The list of free pages starts with `pages` pages, at least one
-- more than a table has entries, which lie apart from each other, from the entry, from the table and
-- from the pages that it names; those and the table lie apart from the entry.
pub record TableSupply (s : Pages) (page : ℕ → ℕ) (pages entry : ℕ) : Type 0 where
  pub there : present (read32 s.mem entry) ≡ true
  pub enough : table_entries ≤ pages
  pub head : s.free_list ≡ page 0
  pub next : (i : ℕ) → i < pages → read32 s.mem (page i) ≡ page (suc i)
  pub kernel : (i : ℕ) → i ≤ pages → 0xc000_0000 ≤ page i
  pub word : (i : ℕ) → i ≤ pages → page i < 2 ^ 32
  pub aligned : (i : ℕ) → i ≤ pages → page i % 4096 ≡ 0
  pub apart : (i j : ℕ) → i ≤ pages → j ≤ pages → i ≢ j → PageApart (page i) (page j) 4096
  pub off_entry : (i : ℕ) → i ≤ pages → PageApart (page i) entry 4
  pub off_table : (i : ℕ) → i ≤ pages → PageApart (page i) (page_of entry s.mem) 4096
  pub table_off_entry : PageApart (page_of entry s.mem) entry 4
  pub off_old :
      (i j : ℕ)
      → i ≤ pages
      → j < table_entries
      → present (read32 s.mem (page_of entry s.mem + j * 4)) ≡ true
      → PageApart (page i) (page_of (page_of entry s.mem + j * 4) s.mem) 4096
  pub old_off_entry :
      (j : ℕ)
      → j < table_entries
      → present (read32 s.mem (page_of entry s.mem + j * 4)) ≡ true
      → PageApart (page_of (page_of entry s.mem + j * 4) s.mem) entry 4

-- A word that was moved.
read32_moved :
    (b c : Bytes) (p q o : ℕ)
    → b (p + o) ≡ c (q + o)
    → b (p + (o + 1)) ≡ c (q + (o + 1))
    → b (p + (o + 2)) ≡ c (q + (o + 2))
    → b (p + (o + 3)) ≡ c (q + (o + 3))
    → read32 b (p + o) ≡ read32 c (q + o)
unfolding read32
read32_moved b c p q o h0 h1 h2 h3 =
    let p1 : p + o + 1 ≡ p + (o + 1) = omega arith in
    let p2 : p + o + 2 ≡ p + (o + 2) = omega arith in
    let p3 : p + o + 3 ≡ p + (o + 3) = omega arith in
    let q1 : q + o + 1 ≡ q + (o + 1) = omega arith in
    let q2 : q + o + 2 ≡ q + (o + 2) = omega arith in
    let q3 : q + o + 3 ≡ q + (o + 3) = omega arith in
    rw (p1, p2, p3, q1, q2, q3, h0, h1, h2, h3) refl

module _ (s : Pages) (page : ℕ → ℕ) (pages entry : ℕ)
    (supply : TableSupply s page pages entry) where
  abbrev table : ℕ
  table = page_of entry s.mem

  -- The memory before the inner loop: the new table is a copy of the old one, and the entry names it.
  abbrev linked : Pages
  linked = record {
    mem =
        write32
          (move_within (fill s.mem s.free_list 4096 0)
            (page_of entry (fill s.mem s.free_list 4096 0)) s.free_list 4096)
          entry (generate_item (vir_2_phy s.free_list) 1);
    free_list = read32 s.mem s.free_list;
  }

  copy_table_eq : copy_table entry s ≡ copy_pages table_entries s.free_list linked
  unfolding copy_table alloc_page
  copy_table_eq = rw (copy_table, supply.there) refl

  filled : Bytes
  filled = fill s.mem s.free_list 4096 0

  filled_off : (a : ℕ) → PageApart (page 0) a 1 → filled a ≡ s.mem a
  unfolding filled
  filled_off a far = fill_at 4096 s.mem s.free_list 0 a ∙ ground (arith, supply.head, far)

  entry_off : (n : ℕ) → n < 4 → PageApart (page 0) (entry + n) 1
  entry_off n lt = omega (arith, supply.off_entry 0 (omega arith))

  same_table : page_of entry filled ≡ table
  same_table =
      let at0 : entry + 0 ≡ entry = omega arith in
      ap (λ (item : ℕ). phy_2_vir (item_address item))
        (read32_eq filled s.mem entry (filled_off entry (rw at0 at (entry_off 0 (omega arith))))
          (filled_off (entry + 1) (entry_off 1 (omega arith)))
          (filled_off (entry + 2) (entry_off 2 (omega arith)))
          (filled_off (entry + 3) (entry_off 3 (omega arith))))

  -- The copy of the old table.
  moved : Bytes
  moved = move_within filled table (page 0) 4096

  moved_at :
      (a : ℕ)
      → moved a ≡ (
          if leb (page 0) a && ltb a (page 0 + 4096)
          then filled (table + (a - page 0))
          else filled a)
  unfolding moved
  moved_at a =
      move_within_at 4096 filled table (page 0) a (omega (arith, supply.off_table 0 (omega arith)))

  linked_mem : linked.mem ≡ write32 moved entry (generate_item (vir_2_phy (page 0)) 1)
  unfolding moved filled
  linked_mem = rw (same_table, supply.head) refl

  -- Outside the new table and the entry, nothing has changed.
  linked_off :
      (a : ℕ) → (a < entry) ⊎ (entry + 4 ≤ a) → PageApart (page 0) a 1 → linked.mem a ≡ s.mem a
  linked_off a out far =
      ap (λ (m : Bytes). m a) linked_mem
      ∙ write32_out moved entry _ a out
      ∙ moved_at a
      ∙ ground (arith, filled_off a far, far)

  -- The new table.
  linked_in : (k : ℕ) → k < 4096 → linked.mem (page 0 + k) ≡ s.mem (table + k)
  linked_in k lt =
      ap (λ (m : Bytes). m (page 0 + k)) linked_mem
      ∙ write32_out moved entry _ (page 0 + k) (omega (arith, supply.off_entry 0 (omega arith)))
      ∙ moved_at (page 0 + k)
      ∙ ground arith
      ∙ filled_off (table + k) (omega (arith, supply.off_table 0 (omega arith)))

  linked_entry : page_of entry linked.mem ≡ page 0
  linked_entry =
      ap (λ (m : Bytes). page_of entry m) linked_mem
      ∙ ap (λ (item : ℕ). phy_2_vir (item_address item))
          (read32-write32_self moved entry _ (generate_item-lt (page 0) 1))
      ∙ phy_2_vir-entry (page 0) 1 (supply.kernel 0 (omega arith)) (supply.word 0 (omega arith))
          (supply.aligned 0 (omega arith))

  linked_word :
      (a : ℕ)
      → (a + 4 ≤ entry) ⊎ (entry + 4 ≤ a)
      → PageApart (page 0) a 4
      → read32 linked.mem a ≡ read32 s.mem a
  linked_word a out far =
      read32_eq linked.mem s.mem a (linked_off a (omega arith) (omega arith))
        (linked_off (a + 1) (omega arith) (omega arith))
        (linked_off (a + 2) (omega arith) (omega arith))
        (linked_off (a + 3) (omega arith) (omega arith))

  linked_item :
      (j : ℕ)
      → j < table_entries
      → read32 linked.mem (page 0 + j * 4) ≡ read32 s.mem (table + j * 4)
  linked_item j lt =
      read32_moved linked.mem s.mem (page 0) table (j * 4) (linked_in (j * 4) (omega arith))
        (linked_in (j * 4 + 1) (omega arith)) (linked_in (j * 4 + 2) (omega arith))
        (linked_in (j * 4 + 3) (omega arith))

  linked_page :
      (j : ℕ)
      → j < table_entries
      → page_of (page 0 + j * 4) linked.mem ≡ page_of (table + j * 4) s.mem
  linked_page j lt = ap (λ (item : ℕ). phy_2_vir (item_address item)) (linked_item j lt)

  linked_present :
      (j : ℕ)
      → j < table_entries
      → present (read32 linked.mem (page 0 + j * 4)) ≡ true
      → present (read32 s.mem (table + j * 4)) ≡ true
  linked_present j lt is = ap present (sym (linked_item j lt)) ∙ is

  linked-Supply : Supply linked (λ i. page (suc i)) pages (page 0) table_entries
  linked-Supply = record {
    enough = supply.enough;
    head = λ some_page. ap (read32 s.mem) supply.head ∙ supply.next 0 (omega arith);
    next = λ i lt.
        linked_word (page (suc i)) (omega (arith, supply.off_entry (suc i) (omega arith))) (
          omega (arith, supply.apart 0 (suc i) (omega arith) (omega arith) (λ e. omega (arith, e))))
        ∙ supply.next (suc i) (omega arith);
    kernel = λ i lt. supply.kernel (suc i) (omega arith);
    word = λ i lt. supply.word (suc i) (omega arith);
    aligned = λ i lt. supply.aligned (suc i) (omega arith);
    apart = λ i j hi hj ne.
        supply.apart (suc i) (suc j) (omega arith) (omega arith) (λ e. ne (omega (arith, e)));
    off_table = λ i lt.
        omega (arith, supply.apart (suc i) 0 (omega arith) (omega arith) (λ e. omega (arith, e)));
    off_old = λ i j hi hj is.
        subst (λ (p : ℕ). PageApart (page (suc i)) p 4096) (sym (linked_page j hj))
          (supply.off_old (suc i) j (omega arith) hj (linked_present j hj is));
    old_off_table = λ j hj is.
        subst (λ (p : ℕ). PageApart p (page 0) (table_entries * 4)) (sym (linked_page j hj))
          (omega (arith, supply.off_old 0 j (omega arith) hj (linked_present j hj is)));
  }

  -- What is apart from the entry and from the free pages stays.
  table_keeps :
      (a : ℕ)
      → ((i : ℕ) → i ≤ pages → PageApart (page i) a 1)
      → (copy_pages table_entries (page 0) linked).mem a ≡ linked.mem a
  table_keeps a far =
      copy_pages-keeps table_entries (page 0) linked (λ i. page (suc i)) pages a linked-Supply
        (omega (arith, far 0 (omega arith))) (λ i lt. far (suc i) (omega arith))

  entry_kept :
      page_of entry (copy_pages table_entries (page 0) linked).mem ≡ page_of entry linked.mem
  entry_kept =
      let after = copy_pages table_entries (page 0) linked in
      ap (λ (item : ℕ). phy_2_vir (item_address item))
        (read32_eq after.mem linked.mem entry
          (table_keeps entry (λ i le. omega (arith, supply.off_entry i le)))
          (table_keeps (entry + 1) (λ i le. omega (arith, supply.off_entry i le)))
          (table_keeps (entry + 2) (λ i le. omega (arith, supply.off_entry i le)))
          (table_keeps (entry + 3) (λ i le. omega (arith, supply.off_entry i le))))

-- The entry of the page directory names the page that was free first; the entry `j` of this new table
-- names one of the free pages, with the content of the page that the old table names, and the old page
-- keeps its content.
pub record TableCopied (s s' : Pages) (page : ℕ → ℕ) (pages entry j : ℕ) : Type 0 where
  pub named : page_of entry s'.mem ≡ page 0
  pub index : ℕ
  pub inside : (0 < index) × (index ≤ pages)
  pub item : page_of (page 0 + j * 4) s'.mem ≡ page index
  pub same :
      (k : ℕ)
      → k < 4096
      → s'.mem (page index + k) ≡ s.mem (page_of (page_of entry s.mem + j * 4) s.mem + k)
  pub kept :
      (k : ℕ)
      → k < 4096
      → s'.mem (page_of (page_of entry s.mem + j * 4) s.mem + k)
        ≡ s.mem (page_of (page_of entry s.mem + j * 4) s.mem + k)

-- Let an entry of the page directory name a page table, and let the list of free pages have one page more
-- than a table has entries, apart from all that is copied. After the body of the outer loop of
-- `copy_process_mem`, the entry names a table of its own, in which every entry that named a page names a
-- page of its own with the same 4096 bytes, while the old page keeps them: the two processes share
-- nothing.
pub copy_table-TableCopied :
    (s : Pages) (page : ℕ → ℕ) (pages entry j : ℕ)
    → TableSupply s page pages entry
    → j < table_entries
    → present (read32 s.mem (page_of entry s.mem + j * 4)) ≡ true
    → TableCopied s (copy_table entry s) page pages entry j
copy_table-TableCopied s page pages entry j supply lt is =
    subst (λ (t : Pages). TableCopied s t page pages entry j) (sym result)
      (record {
        named = entry_kept s page pages entry supply ∙ linked_entry s page pages entry supply;
        index = suc copied.index;
        inside = omega (arith, copied.inside);
        item = copied.named;
        same = λ k hk.
            copied.same k hk
            ∙ ap (λ (p : ℕ). before.mem (p + k)) (linked_page s page pages entry supply j lt)
            ∙ old_off k hk;
        kept = λ k hk.
            table_keeps s page pages entry supply (old + k)
              (λ i le. omega (arith, supply.off_old i j le lt is, hk))
            ∙ old_off k hk;
      })
  where
    before : Pages
    before = linked s page pages entry supply

    after : Pages
    after = copy_pages table_entries (page 0) before

    old : ℕ
    old = page_of (page_of entry s.mem + j * 4) s.mem

    result : copy_table entry s ≡ after
    result =
        copy_table_eq s page pages entry supply
        ∙ ap (λ (p : ℕ). copy_pages table_entries p before) supply.head

    copied : Copied before after (λ i. page (suc i)) pages (page 0 + j * 4)
    copied =
        copy_pages-Copied table_entries (page 0) j before (λ i. page (suc i)) pages
          (linked-Supply s page pages entry supply) lt
          (ap present (linked_item s page pages entry supply j lt) ∙ is)

    old_off : (k : ℕ) → k < 4096 → before.mem (old + k) ≡ s.mem (old + k)
    old_off k hk =
        linked_off s page pages entry supply (old + k)
          (omega (arith, supply.old_off_entry j lt is, hk))
          (omega (arith, supply.off_old 0 j (omega arith) lt is, hk))

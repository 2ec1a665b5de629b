-- ===== src/Process/Space/Tables.antt =====
-- What the inner loop of `copy_process_mem` makes of a page table: each page gets a copy of its own.
use nbos.Base.{
  ℕ, zero, suc, ◌+◌, ◌*◌, ◌≤◌, ◌<◌, ◌≡◌, ◌⊎◌, inl, inr, refl, sym, ap, ◌∙◌, arith, true, Bool-cases,
}
use mathlib.Core.Path.{subst}
use nbos.Base.Bytes.{read32, read32_eq}
use nbos.Memory.Pages.{Pages, present, item_address, phy_2_vir}
use nbos.Process.Space.{copy_page, copy_pages, page_of}
use nbos.Process.Space.Supply.{
  Supply, head_page, next_free, off_entry, off_page, step-keeps, step_item, step-Supply,
  skip-Supply, copy_page-absent,
}
use nbos.Process.Space.Copy.{PageApart, copy_page-entry, copy_page-new}

-- Bytes apart from the entries and from the free pages stay.
pub copy_pages-keeps :
    (n entry : ℕ) (s : Pages) (page : ℕ → ℕ) (pages a : ℕ)
    → Supply s page pages entry n
    → (a < entry) ⊎ (entry + n * 4 ≤ a)
    → ((i : ℕ) → i < pages → PageApart (page i) a 1)
    → (copy_pages n entry s).mem a ≡ s.mem a
unfolding copy_pages
copy_pages-keeps zero entry s page pages a supply out far = refl
copy_pages-keeps (suc n) entry s page zero a supply out far = absurd (omega (arith, supply.enough))
copy_pages-keeps (suc n) entry s page (suc pages) a supply out far =
    elim (Bool-cases (present (read32 s.mem entry))) [
      | inl e ↦
          copy_pages-keeps n (entry + 4) (copy_page entry s) (λ i. page (suc i)) pages a
            (step-Supply s page pages entry n supply e) (omega arith)
            (λ i lt. far (suc i) (omega arith))
          ∙ step-keeps s page pages entry n supply e a (omega arith) (far 0 (omega arith))
      | inr e ↦
          ap (λ (t : Pages). (copy_pages n (entry + 4) t).mem a) (copy_page-absent entry s e)
          ∙ copy_pages-keeps n (entry + 4) s page (suc pages) a
              (skip-Supply s page (suc pages) entry n supply) (omega arith) far
    ]

-- The entry names one of the free pages, with the content of the page that it named before.
pub record Copied (s s' : Pages) (page : ℕ → ℕ) (pages entry : ℕ) : Type 0 where
  pub index : ℕ
  pub inside : index < pages
  pub named : page_of entry s'.mem ≡ page index
  pub same : (k : ℕ) → k < 4096 → s'.mem (page index + k) ≡ s.mem (page_of entry s.mem + k)

-- The first entry's copy is still there after the other entries.
module _ (s : Pages) (page : ℕ → ℕ) (pages entry n : ℕ)
    (supply : Supply s page (suc pages) entry (suc n))
    (there : present (read32 s.mem entry) ≡ true) where
  abbrev stepped : Pages
  stepped = copy_page entry s

  later_keeps :
      (a : ℕ)
      → (a < entry + 4) ⊎ (entry + 4 + n * 4 ≤ a)
      → ((i : ℕ) → i < pages → PageApart (page (suc i)) a 1)
      → (copy_pages n (entry + 4) stepped).mem a ≡ stepped.mem a
  later_keeps a out far =
      copy_pages-keeps n (entry + 4) stepped (λ i. page (suc i)) pages a
        (step-Supply s page pages entry n supply there) out far

  in_entry :
      (a : ℕ) → entry ≤ a → a < entry + 4 → (copy_pages n (entry + 4) stepped).mem a ≡ stepped.mem a
  in_entry a lo hi =
      later_keeps a (omega arith) (λ i lt. omega (arith, supply.off_table (suc i) (omega arith)))

  entry_kept : read32 (copy_pages n (entry + 4) stepped).mem entry ≡ read32 stepped.mem entry
  entry_kept =
      read32_eq (copy_pages n (entry + 4) stepped).mem stepped.mem entry
        (in_entry entry (omega arith) (omega arith))
        (in_entry (entry + 1) (omega arith) (omega arith))
        (in_entry (entry + 2) (omega arith) (omega arith))
        (in_entry (entry + 3) (omega arith) (omega arith))

  first-Copied : Copied s (copy_pages n (entry + 4) stepped) page (suc pages) entry
  first-Copied =
      let free = head_page s page pages entry n supply there in
      let ok = next_free s page pages entry n supply there in
      let off = off_entry s page pages entry n supply there in
      let old = off_page s page pages entry n supply there in
      record {
        index = 0;
        inside = omega arith;
        named =
            ap (λ (item : ℕ). phy_2_vir (item_address item)) entry_kept
            ∙ copy_page-entry entry s ok there off old
            ∙ free;
        same = λ k lt.
            later_keeps (page 0 + k) (omega (arith, supply.off_table 0 (omega arith))) (λ i hi.
              omega (
                arith,
                supply.apart (suc i) 0 (omega arith) (omega arith) (λ e. absurd (omega (arith, e))),
              ))
            ∙ ap (λ (p : ℕ). stepped.mem (p + k)) (sym free)
            ∙ copy_page-new entry s ok there off old k lt;
      }

-- The copies of the entries behind an entry that named a page.
module _ (s s' : Pages) (page : ℕ → ℕ) (pages entry n : ℕ)
    (supply : Supply s page (suc pages) entry (suc n))
    (there : present (read32 s.mem entry) ≡ true) where
  later-Copied :
      (j : ℕ)
      → j < n
      → present (read32 s.mem (entry + suc j * 4)) ≡ true
      → Copied (copy_page entry s) s' (λ i. page (suc i)) pages (entry + 4 + j * 4)
      → Copied s s' page (suc pages) (entry + suc j * 4)
  later-Copied j lt is copied = record {
    index = suc copied.index;
    inside = omega (arith, copied.inside);
    named = ap (λ (p : ℕ). page_of p s'.mem) (sym place) ∙ copied.named;
    same = λ k hk.
        copied.same k hk
        ∙ ap (λ (item : ℕ). (copy_page entry s).mem (phy_2_vir (item_address item) + k))
            (step_item s page pages entry n supply there j lt)
        ∙ step-keeps s page pages entry n supply there _
            (omega (arith, supply.old_off_table (suc j) (omega arith) is))
            (omega (arith, supply.off_old 0 (suc j) (omega arith) (omega arith) is));
  }
    where
      place : entry + 4 + j * 4 ≡ entry + suc j * 4
      place = omega arith

-- Let the list of free pages start with `pages` pages, at least as many as there are entries in a page
-- table, which lie apart from each other, from the table and from the pages that it names; those lie
-- apart from the table. After the inner loop of `copy_process_mem`, each entry that named a page names
-- one of the free pages, and all 4096 bytes in it are those of the page that the entry named before.
pub copy_pages-Copied :
    (n entry j : ℕ) (s : Pages) (page : ℕ → ℕ) (pages : ℕ)
    → Supply s page pages entry n
    → j < n
    → present (read32 s.mem (entry + j * 4)) ≡ true
    → Copied s (copy_pages n entry s) page pages (entry + j * 4)
unfolding copy_pages
copy_pages-Copied zero entry j s page pages supply lt is = absurd (omega arith)
copy_pages-Copied (suc n) entry j s page zero supply lt is = absurd (omega (arith, supply.enough))
copy_pages-Copied (suc n) entry zero s page (suc pages) supply lt is =
    let at : entry ≡ entry + 0 * 4 = omega arith in
    let there : present (read32 s.mem entry) ≡ true =
      ap (λ (p : ℕ). present (read32 s.mem p)) at ∙ is in
    subst (λ (p : ℕ). Copied s (copy_pages (suc n) entry s) page (suc pages) p) at
      (first-Copied s page pages entry n supply there)
copy_pages-Copied (suc n) entry (suc j) s page (suc pages) supply lt is =
    let at : entry + suc j * 4 ≡ entry + 4 + j * 4 = omega arith in
    elim (Bool-cases (present (read32 s.mem entry))) [
      | inl e ↦
          later-Copied s (copy_pages (suc n) entry s) page pages entry n supply e j (omega arith) is
            (copy_pages-Copied n (entry + 4) j (copy_page entry s) (λ i. page (suc i)) pages
              (step-Supply s page pages entry n supply e) (omega arith)
              (ap present (step_item s page pages entry n supply e j (omega arith)) ∙ is))
      | inr e ↦
          subst
            (λ (t : Pages).
              Copied s (copy_pages n (entry + 4) t) page (suc pages) (entry + suc j * 4))
            (sym (copy_page-absent entry s e))
            (subst (λ (p : ℕ). Copied s (copy_pages n (entry + 4) s) page (suc pages) p) (sym at)
              (copy_pages-Copied n (entry + 4) j s page (suc pages)
                (skip-Supply s page (suc pages) entry n supply) (omega arith)
                (ap (λ (p : ℕ). present (read32 s.mem p)) (sym at) ∙ is)))
    ]

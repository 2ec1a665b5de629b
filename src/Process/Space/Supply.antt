-- ===== src/Process/Space/Supply.antt =====
-- The free pages that the inner loop of `copy_process_mem` takes, and one round of the loop.
use nbos.Base.{
  ℕ, suc, ◌+◌, ◌*◌, ◌%◌, ◌^◌, ◌≤◌, ◌<◌, ◌≡◌, ◌≢◌, ◌⊎◌, sym, ap, ◌∙◌, arith, true, false,
}
use nbos.Base.Bytes.{read32, read32_eq}
use nbos.Memory.Pages.{Pages, present}
use nbos.Process.Space.{copy_page, page_of}
use nbos.Process.Space.Copy.{PageApart, NextFree, copy_page-rest, copy_page-free_list}

-- The list of free pages starts with the `pages` pages `page 0`, `page 1` and so on, which lie apart from
-- each other, from the `n` entries at `entry`, and from the pages that these name; those lie apart from
-- the entries.
pub record Supply (s : Pages) (page : ℕ → ℕ) (pages entry n : ℕ) : Type 0 where
  pub enough : n ≤ pages
  pub head : 0 < pages → s.free_list ≡ page 0
  pub next : (i : ℕ) → suc i < pages → read32 s.mem (page i) ≡ page (suc i)
  pub kernel : (i : ℕ) → i < pages → 0xc000_0000 ≤ page i
  pub word : (i : ℕ) → i < pages → page i < 2 ^ 32
  pub aligned : (i : ℕ) → i < pages → page i % 4096 ≡ 0
  pub apart : (i j : ℕ) → i < pages → j < pages → i ≢ j → PageApart (page i) (page j) 4096
  pub off_table : (i : ℕ) → i < pages → PageApart (page i) entry (n * 4)
  pub off_old :
      (i j : ℕ)
      → i < pages
      → j < n
      → present (read32 s.mem (entry + j * 4)) ≡ true
      → PageApart (page i) (page_of (entry + j * 4) s.mem) 4096
  pub old_off_table :
      (j : ℕ)
      → j < n
      → present (read32 s.mem (entry + j * 4)) ≡ true
      → PageApart (page_of (entry + j * 4) s.mem) entry (n * 4)

-- One entry that names a page.
module _ (s : Pages) (page : ℕ → ℕ) (pages entry n : ℕ)
    (supply : Supply s page (suc pages) entry (suc n))
    (there : present (read32 s.mem entry) ≡ true) where
  here : entry + 0 * 4 ≡ entry
  here = omega arith

  pub head_page : s.free_list ≡ page 0
  head_page = supply.head (omega arith)

  pub next_free : NextFree s
  next_free = record {
    kernel = omega (arith, head_page, supply.kernel 0 (omega arith));
    word = omega (arith, head_page, supply.word 0 (omega arith));
    aligned = omega (arith, head_page, supply.aligned 0 (omega arith));
  }

  pub off_entry : PageApart s.free_list entry 4
  off_entry = omega (arith, head_page, supply.off_table 0 (omega arith))

  pub off_page : PageApart s.free_list (page_of entry s.mem) 4096
  off_page =
      rw head_page (rw here at (supply.off_old 0 0 (omega arith) (omega arith) (rw here there)))

  -- The bytes apart from the entry and the new page stay.
  pub step-keeps :
      (a : ℕ)
      → (a < entry) ⊎ (entry + 4 ≤ a)
      → PageApart (page 0) a 1
      → (copy_page entry s).mem a ≡ s.mem a
  step-keeps a out far =
      copy_page-rest entry s next_free there off_entry off_page a out
        (omega (arith, head_page, far))

  step_word :
      (p : ℕ)
      → (p + 4 ≤ entry) ⊎ (entry + 4 ≤ p)
      → PageApart (page 0) p 4
      → read32 (copy_page entry s).mem p ≡ read32 s.mem p
  step_word p out far =
      read32_eq (copy_page entry s).mem s.mem p (step-keeps p (omega arith) (omega arith))
        (step-keeps (p + 1) (omega arith) (omega arith))
        (step-keeps (p + 2) (omega arith) (omega arith))
        (step-keeps (p + 3) (omega arith) (omega arith))

  pub step_item :
      (j : ℕ)
      → j < n
      → read32 (copy_page entry s).mem (entry + 4 + j * 4) ≡ read32 s.mem (entry + suc j * 4)
  step_item j lt =
      step_word (entry + 4 + j * 4) (omega arith) (omega (arith, supply.off_table 0 (omega arith)))
      ∙ ap (read32 s.mem) (omega arith)

  pub step-Supply : Supply (copy_page entry s) (λ i. page (suc i)) pages (entry + 4) n
  step-Supply = record {
    enough = omega (arith, supply.enough);
    head = λ some_page.
        copy_page-free_list entry s next_free there off_entry off_page
        ∙ ap (read32 s.mem) head_page
        ∙ supply.next 0 (omega arith);
    next = λ i lt.
        step_word (page (suc i)) (omega (arith, supply.off_table (suc i) (omega arith))) (
          omega (arith, supply.apart 0 (suc i) (omega arith) (omega arith) (λ e. omega (arith, e))))
        ∙ supply.next (suc i) (omega arith);
    kernel = λ i lt. supply.kernel (suc i) (omega arith);
    word = λ i lt. supply.word (suc i) (omega arith);
    aligned = λ i lt. supply.aligned (suc i) (omega arith);
    apart = λ i j hi hj ne.
        supply.apart (suc i) (suc j) (omega arith) (omega arith) (λ e. ne (omega (arith, e)));
    off_table = λ i lt. omega (arith, supply.off_table (suc i) (omega arith));
    off_old = λ i j hi hj is. rw (step_item j hj) (
        supply.off_old (suc i) (suc j) (omega arith) (omega arith)
          (ap present (sym (step_item j hj)) ∙ is));
    old_off_table = λ j hj is. rw (step_item j hj) (
        narrower (suc j)
          (supply.old_off_table (suc j) (omega arith) (ap present (sym (step_item j hj)) ∙ is)));
  }
    where
      narrower :
          (j : ℕ)
          → PageApart (page_of (entry + j * 4) s.mem) entry (suc n * 4)
          → PageApart (page_of (entry + j * 4) s.mem) (entry + 4) (n * 4)
      narrower j far = omega arith

-- One entry that names no page.
module _ (s : Pages) (page : ℕ → ℕ) (pages entry n : ℕ)
    (supply : Supply s page pages entry (suc n)) where
  shift : (j : ℕ) → entry + 4 + j * 4 ≡ entry + suc j * 4
  shift j = omega arith

  pub skip-Supply : Supply s page pages (entry + 4) n
  skip-Supply = record {
    enough = omega (arith, supply.enough);
    head = supply.head;
    next = supply.next;
    kernel = supply.kernel;
    word = supply.word;
    aligned = supply.aligned;
    apart = supply.apart;
    off_table = λ i lt. omega (arith, supply.off_table i lt);
    off_old = λ i j hi hj is. rw (shift j) (
        supply.off_old i (suc j) hi (omega arith)
          (ap (λ p. present (read32 s.mem p)) (sym (shift j)) ∙ is));
    old_off_table = λ j hj is. rw (shift j) (
        narrower j (
          supply.old_off_table (suc j) (omega arith)
            (ap (λ p. present (read32 s.mem p)) (sym (shift j)) ∙ is)));
  }
    where
      narrower :
          (j : ℕ)
          → PageApart (page_of (entry + suc j * 4) s.mem) entry (suc n * 4)
          → PageApart (page_of (entry + suc j * 4) s.mem) (entry + 4) (n * 4)
      narrower j far = omega arith

pub copy_page-absent :
    (entry : ℕ) (s : Pages) → present (read32 s.mem entry) ≡ false → copy_page entry s ≡ s
unfolding copy_page
copy_page-absent entry s e = rw e

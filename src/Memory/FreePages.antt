-- ===== src/Memory/FreePages.antt =====
-- The list of free pages that `init_memory` makes.
use nbos.Base.{
  List, ℕ, zero, suc, ◌+◌, ◌-◌, ◌*◌, ◌/◌, ◌^◌, ◌≤◌, ◌<◌, ◌≡◌, refl, ap, ◌∙◌, arith, some, lt→ltb,
}
use nbos.Base.Bytes.{Bytes, read32, write32, read32-write32_self, read32-write32_ne}
use nbos.Memory.Pages.{
  Pages, alloc_page, free_from, link_pages, align_up, kernel_end, init_memory, ProgramHeader,
}

-- The state after `k` calls of `alloc_page`.
unfoldable pub alloc_pages : ℕ → Pages → Pages
alloc_pages zero s = s
alloc_pages (suc k) s = alloc_pages k (alloc_page s).1

link_pages-before :
    (n pre q : ℕ) (mem : Bytes)
    → q + 4 ≤ pre
    → read32 (link_pages n (pre + 4096) pre mem) q ≡ read32 mem q
unfolding link_pages
link_pages-before zero pre q mem lo = refl
link_pages-before (suc n) pre q mem lo =
    link_pages-before n (pre + 4096) q (write32 mem pre (pre + 4096)) (omega arith)
    ∙ read32-write32_ne mem pre (pre + 4096) q (omega arith)

-- Each page but the last leads to the next one.
link_pages-next :
    (n pre j : ℕ) (mem : Bytes)
    → j < n
    → pre + n * 4096 < 2 ^ 32
    → read32 (link_pages n (pre + 4096) pre mem) (pre + j * 4096) ≡ pre + (j + 1) * 4096
unfolding link_pages
link_pages-next zero pre j mem lt hi = absurd (omega arith)
link_pages-next (suc n) pre zero mem lt hi =
    let e : pre + 0 * 4096 ≡ pre = omega arith in
    rw e (
      link_pages-before n (pre + 4096) pre (write32 mem pre (pre + 4096)) (omega arith)
      ∙ read32-write32_self mem pre (pre + 4096) (omega arith)
      ∙ omega arith)
link_pages-next (suc n) pre (suc j) mem lt hi =
    let e : pre + suc j * 4096 ≡ pre + 4096 + j * 4096 = omega arith in
    rw e (
      link_pages-next n (pre + 4096) j (write32 mem pre (pre + 4096)) (omega arith) (omega arith)
      ∙ omega arith)

alloc_pages-linked :
    (k p : ℕ) (mem : Bytes)
    → ((j : ℕ) → j < k → read32 mem (p + j * 4096) ≡ p + (j + 1) * 4096)
    → (alloc_pages k (record { mem = mem; free_list = p })).free_list ≡ p + k * 4096
unfolding alloc_pages alloc_page
alloc_pages-linked zero p mem linked = omega arith
alloc_pages-linked (suc k) p mem linked =
    let e : p ≡ p + 0 * 4096 = omega arith in
    let one : p + 1 * 4096 ≡ p + 4096 = omega arith in
    let next : read32 mem p ≡ p + 4096 = ap (read32 mem) e ∙ linked 0 (omega arith) ∙ omega arith in
    rw (alloc_pages, next) (alloc_pages-linked k (p + 4096) mem (λ j lt. later j lt) ∙ omega arith)
  where
    later : (j : ℕ) → j < k → read32 mem (p + 4096 + j * 4096) ≡ p + 4096 + (j + 1) * 4096
    later j lt =
        let e : p + 4096 + j * 4096 ≡ p + suc j * 4096 = omega arith in
        ap (read32 mem) e ∙ linked (suc j) (omega arith) ∙ omega arith

-- Where the kernel has a segment that ends at `end`, `init_memory` gives a list from which
-- `alloc_page` hands out the pages behind the kernel one after the other, each once: after `k`
-- calls the next page is the one `k` pages behind the first, for every page that starts below the
-- end of the physical memory.
pub init_memory-alloc_pages :
    (phs : List ProgramHeader) (end k : ℕ) (s : Pages)
    → kernel_end phs ≡ some end
    → align_up end + k * 4096 < 0xc200_0000
    → (s' : Pages) × ((init_memory phs s ≡ some s')
        × ((alloc_page (alloc_pages k s')).0 ≡ align_up end + k * 4096))
unfolding init_memory free_from alloc_page
init_memory-alloc_pages phs end k s at hi =
    let first = align_up end in
    let n = (0xc200_0000 - first - 1) / 4096 in
    let mem = link_pages n (first + 4096) first s.mem in
    (
      record { mem = mem; free_list = first },
      (
        rw (init_memory, at, lt→ltb (align_up end) 0xc200_0000 (omega arith)),
        alloc_pages-linked k first mem
            (λ j lt. link_pages-next n first j s.mem (omega arith) (omega arith)),
      ),
    )

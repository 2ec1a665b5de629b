-- ===== src/Process/Load/Segments.antt =====
-- How many pages `loadProcess` maps for a segment.
use nbos.Base.{ℕ, suc, ◌+◌, ◌^◌, ◌≤◌, ◌<◌, ◌≡◌, arith, some}
use nbos.Memory.Pages.{Pages, alloc_page, page_map, vir_2_phy}
use nbos.Process.Load.{map_pages}

-- The loop that should map every page from `page` up to `end` maps the first one only, for a segment that
-- ends within 16 megabytes of its first page.
pub map_pages-one :
    (fuel pagedir page end : ℕ) (s : Pages)
    → page < end
    → end ≤ page + 2 ^ 24
    → page + 2 ^ 24 < 2 ^ 32
    → map_pages (suc (suc fuel)) pagedir page end s
      ≡ some (page_map pagedir page (vir_2_phy (alloc_page s).0) 1 (alloc_page s).1)
unfolding map_pages
map_pages-one fuel pagedir page end s lo hi small = ground arith

-- ===== src/Memory/Bitmap.antt =====
-- The older allocator of memory.c, which hands out pages by a bit for each: `palloc`, `kmap`, `kalloc`,
-- `umap`, `ualloc` and `free`.
use nbos.Base.{
  ℕ, zero, suc, ◌+◌, ◌-◌, ◌*◌, ◌/◌, ◌%◌, ◌^◌, ◌<◌, ◌≡◌, inl, inr, sym, ◌∙◌, arith, Bool-cases,
  Option, none, some, ◌==◌, ltb, if◌then◌else◌,
}
use nbos.Base.Partial.{◌>>=◌, >>=-eq-some}
use nbos.Base.Bytes.{Bytes, read32, write32, write8}
use nbos.Memory.Pages.{Pages, page_size, vir_2_phy, phy_2_vir, item_address, alloc_page}

abbrev pub kfree_start : ℕ
kfree_start = 0x14_0000

abbrev pub ufree_start : ℕ
ufree_start = 0x1000_0000

-- The bit of a byte as a signed `char`: the bits from 7 on are the sign.
abbrev pub bit_of : ℕ → ℕ → ℕ
bit_of b k = if ltb k 8 then b / 2 ^ k % 2 else b / 128 % 2

-- The second loop, for the bit `k`: the first bit that is not set, within so many rounds.
unfoldable pub first_free_bit : ℕ → ℕ → ℕ → Option ℕ
first_free_bit zero b k = none
first_free_bit (suc fuel) b k =
    let rest = first_free_bit fuel b (k + 1) in if bit_of b k == 0 then some k else rest

-- `palloc` over the bits of one of the two spaces, which start at `base`: the first loop compares a
-- signed `char` with 255, so it ends at once. The second one ends within eight rounds or never: `none`.
unfoldable pub palloc : ℕ → Bytes → Option (ℕ × Bytes)
unfolding first_free_bit
palloc base status = do
  bit ← first_free_bit 8 (status 0) 0
  some (bit * 0x1000 + base, write8 status 0 (status 0 + 2 ^ bit))

-- The type's space: `UMEM` or the kernel's.
pub record Spaces : Type 0 where
  pub kpage_status : Bytes
  pub upage_status : Bytes
  pub kvir_next_addr : ℕ

-- `kmap`; `pagedir` is the kernel's page directory.
unfoldable pub kmap : ℕ → ℕ → ℕ → Bytes → Bytes
unfolding item_address
kmap pagedir vir_addr_start phy_page mem =
    let page_table = item_address (read32 mem (pagedir + vir_addr_start / 2 ^ 22 * 4)) in
    write32 mem (phy_2_vir page_table + vir_addr_start / 4096 % 1024 * 4) (phy_page + 7)

-- `kalloc`: the address, the bits and the memory.
unfoldable pub kalloc : ℕ → Spaces → Bytes → Option (ℕ × Spaces × Bytes)
kalloc pagedir s mem = do
  page ← palloc kfree_start s.kpage_status
  some (
    s.kvir_next_addr,
    record s { kpage_status = page.1; kvir_next_addr = (s.kvir_next_addr + page_size) % 2 ^ 32 },
    kmap pagedir s.kvir_next_addr page.0 mem,
  )

-- The loop of `umap`: the word that it tests is the page's address without the flags.
unfoldable pub table_loop : ℕ → ℕ → ℕ → Pages → Option (ℕ × Pages)
table_loop zero entry page_table s = none
table_loop (suc fuel) entry page_table s =
    let (page, s') = alloc_page s in
    let next = vir_2_phy page in
    let rest =
      table_loop fuel entry next (record s' { mem = write32 s'.mem entry ((next + 7) % 2 ^ 32) }) in
    if page_table % 2 == 1 then some (page_table, s) else rest

-- `umap`, with a bound on the rounds of its loop.
unfoldable pub umap : ℕ → ℕ → ℕ → ℕ → Pages → Option Pages
umap fuel page_dir vir_addr_start phy_page s = do
  let entry = page_dir + vir_addr_start / 2 ^ 22 * 4
  table ← table_loop fuel entry (read32 s.mem entry) s
  let pte = phy_2_vir (item_address table.0) + vir_addr_start / 4096 % 1024 * 4
  some (record table.1 { mem = write32 table.1.mem pte ((phy_page + 7) % 2 ^ 32) })

-- `ualloc`: the address that it returns, the next one, and the memory.
unfoldable pub ualloc : ℕ → ℕ → ℕ → Pages → Option (ℕ × ℕ × Pages)
ualloc fuel uvir_next_addr upage_dir s =
    let (page, s') = alloc_page s in
    (do
      mapped ← umap fuel upage_dir uvir_next_addr (vir_2_phy page) s'
      some (uvir_next_addr, (uvir_next_addr + page_size) % 2 ^ 32, mapped))

-- `free` over the bits of a space that starts at `base`.
unfoldable pub free : ℕ → ℕ → Bytes → Bytes
free base addr status =
    let index = (addr - base) / 0x1000 in
    let byte = index / 8 in
    let bit = index % 8 in write8 status byte (status byte - status byte / 2 ^ bit % 2 * 2 ^ bit)

first_free_bit-lt : (fuel b k bit : ℕ) → first_free_bit fuel b k ≡ some bit → bit < k + fuel
unfolding first_free_bit
first_free_bit-lt zero b k bit run = cc run
first_free_bit-lt (suc fuel) b k bit run = elim (Bool-cases (bit_of b k == 0)) [
  | inl e ↦
      let here : first_free_bit (suc fuel) b k ≡ some k = rw e in
      let same : k ≡ bit = cc (here, run) in omega arith
  | inr e ↦
      let later : first_free_bit (suc fuel) b k ≡ first_free_bit fuel b (k + 1) = rw e in
      omega (arith, first_free_bit-lt fuel b (k + 1) bit (sym later ∙ run))
]

-- A page that `palloc` gives is one of the first eight of its space, however many there are.
pub palloc-eight :
    (base : ℕ) (status status' : Bytes) (page : ℕ)
    → palloc base status ≡ some (page, status')
    → page < base + 8 * 0x1000
unfolding palloc
palloc-eight base status status' page run =
    let (bit, found, rest) =
      >>=-eq-some (first_free_bit 8 (status 0) 0)
        (λ (k : ℕ). some (k * 0x1000 + base, write8 status 0 (status 0 + 2 ^ k))) run in
    let same : bit * 0x1000 + base ≡ page = cc rest in
    omega (arith, first_free_bit-lt 8 (status 0) 0 bit found)

-- ===== src/Process/TableTests.antt =====
-- The theorem on the copy of a page table at a concrete memory, with 1025 free pages.
use native.Mathlib.Omega.{arith}
use mathlib.Core.Path.{◌≡◌, refl, ap, ◌∙◌}
use nbos.Base.{ℕ, zero, suc, ◌+◌, ◌*◌, ◌/◌, ◌%◌, ◌^◌, ◌<◌, true, ◌==◌, ltb, false, if◌then◌else◌}
use nbos.Base.Bytes.{Bytes, read32}
use nbos.Memory.Pages.{Pages, present, item_address, phy_2_vir}
use nbos.Process.Space.{page_of, copy_table}
use nbos.Process.Space.Linked.{TableSupply, TableCopied, copy_table-TableCopied}

abbrev free_page_at : ℕ → ℕ
free_page_at i = 0xc100_0000 + i * 4096

-- The byte `n` of an address, and 0 behind its four bytes.
abbrev byte_of : ℕ → ℕ → ℕ
byte_of a n =
    if n == 0
    then a % 256
    else if n == 1
    then a / 2 ^ 8 % 256
    else if n == 2
    then a / 2 ^ 16 % 256
    else if n == 3
    then a / 2 ^ 24 % 256
    else 0

-- Each free page starts with the address of the one behind it.
abbrev link : ℕ → ℕ
link k = byte_of (k / 4096 * 4096 + 4096) (k % 4096)

-- The entry at 0xc0100000 names the table at 0xc0200000, whose first entry names the page at 0xc0400000.
abbrev memory : Bytes
memory k =
    if ltb k 0xc100_0000
    then (if k == 0xc010_0000
        then 7
        else if k == 0xc010_0002
        then 0x20
        else if k == 0xc020_0000
        then 7
        else if k == 0xc020_0002
        then 0x40
        else 0)
    else link k

abbrev pages : Pages
pages = record { mem = memory; free_list = 0xc100_0000 }

link_at : (i n : ℕ) → n < 4 → memory (free_page_at i + n) ≡ byte_of (free_page_at (suc i)) n
link_at i n lt =
    let high : ltb (free_page_at i + n) 0xc100_0000 ≡ false = ground arith in
    let behind : (free_page_at i + n) / 4096 * 4096 + 4096 ≡ free_page_at (suc i) = omega arith in
    let place : (free_page_at i + n) % 4096 ≡ n = omega arith in rw (high, behind, place) refl

word_of :
    (m : Bytes) (p v : ℕ)
    → v < 2 ^ 32
    → ((n : ℕ) → n < 4 → m (p + n) ≡ byte_of v n)
    → read32 m p ≡ v
unfolding read32
word_of m p v small bytes =
    let start : p ≡ p + 0 = omega arith in
    let b0 : m p ≡ v % 256 = ap m start ∙ bytes 0 (omega arith) in
    let b1 : m (p + 1) ≡ v / 2 ^ 8 % 256 = bytes 1 (omega arith) in
    let b2 : m (p + 2) ≡ v / 2 ^ 16 % 256 = bytes 2 (omega arith) in
    let b3 : m (p + 3) ≡ v / 2 ^ 24 % 256 = bytes 3 (omega arith) in
    rw (b0, b1, b2, b3) (omega arith)

linked : (i : ℕ) → i < 1024 → read32 memory (free_page_at i) ≡ free_page_at (suc i)
linked i lt =
    word_of memory (free_page_at i) (free_page_at (suc i)) (omega arith) (λ n few. link_at i n few)

named : page_of 0xc010_0000 memory ≡ 0xc020_0000
unfolding phy_2_vir item_address read32
named = refl

-- Of the entries in the table, the first one names a page.
named_page :
    (j : ℕ)
    → j < 1024
    → present (read32 memory (0xc020_0000 + j * 4)) ≡ true
    → page_of (0xc020_0000 + j * 4) memory ≡ 0xc040_0000
unfolding present read32 phy_2_vir item_address
named_page zero lt is = refl
named_page (suc j) lt is = ground arith

pages-TableSupply : TableSupply pages free_page_at 1024 0xc010_0000
unfolding present read32
pages-TableSupply = record {
  there = refl;
  enough = omega arith;
  head = refl;
  next = linked;
  kernel = λ i le. omega arith;
  word = λ i le. omega arith;
  aligned = λ i le. omega arith;
  apart = λ i j hi hj ne. omega (arith, ne);
  off_entry = λ i le. omega arith;
  off_table = λ i le. omega (arith, named);
  table_off_entry = omega (arith, named);
  off_old = λ i j le lt. rw named (λ is. omega (arith, named_page j lt is));
  old_off_entry = λ j lt. rw named (λ is. omega (arith, named_page j lt is));
}

copy_table-TableCopied_example :
    TableCopied pages (copy_table 0xc010_0000 pages) free_page_at 1024 0xc010_0000 0
unfolding present read32 phy_2_vir item_address
copy_table-TableCopied_example =
    copy_table-TableCopied pages free_page_at 1024 0xc010_0000 0 pages-TableSupply (omega arith)
      refl

-- ===== src/File/ReadSeg.antt =====
-- `read_seg` and `load_process` of diskload.c, and `loader_main` of loader.c with its own `read_seg`, of
-- the same text: parts of a program read from consecutive sectors.
use nbos.Base.{
  ℕ, zero, suc, ◌+◌, ◌-◌, ◌*◌, ◌/◌, ◌%◌, ◌^◌, ◌≤◌, ◌<◌, ◌≡◌, ◌∙◌, arith, true, false, Option, none,
  some, ◌==◌, ltb, leb, ◌&&◌, if◌then◌else◌,
}
use nbos.Base.Bytes.{Bytes, read16, read32}
use nbos.Memory.Copy.{memmov, memmov_at}
use nbos.Memory.Elf.{
  segment_at, load_seg, elf_magic, program_header_size, e_phnum, e_phoff, e_entry,
}
use nbos.Memory.Pages.{vir_2_phy}
use nbos.File.Disk.{Disk, k_readsector}

-- The loop, with `n` sectors left.
unfoldable pub read_sectors : ℕ → Disk → ℕ → ℕ → Bytes → Bytes
unfolding k_readsector
read_sectors zero d target_location sector mem = mem
read_sectors (suc n) d target_location sector mem =
    read_sectors n d (target_location + 512) ((sector + 1) % 2 ^ 32)
      (memmov (k_readsector d sector) 0 mem target_location 512)

-- The loop stops at the first multiple of 512 behind the start that is not below `size`. The end,
-- `target_location + size`, is taken to be a 32-bit address, as it is in the source's calls.
unfoldable pub read_seg : Disk → ℕ → ℕ → ℕ → ℕ → Bytes → Bytes
unfolding read_sectors
read_seg d target_location size start_sector offset mem =
    read_sectors ((size + 511) / 512) d (target_location - offset % 512)
      ((start_sector + offset / 512) % 2 ^ 32) mem

-- The loop of `load_process` over the headers, from `i` on; the segments follow each other at `destpos`.
unfoldable pub load_loop : ℕ → Disk → ℕ → ℕ → ℕ → ℕ → ℕ → Bytes → Option Bytes
unfolding segment_at
load_loop zero d sector elf i header destpos mem = none
load_loop (suc fuel) d sector elf i header destpos mem =
    let seg = segment_at mem header in
    let next = load_loop fuel d sector elf (i + 1) (header + program_header_size) in
    elim (ltb i (read16 mem (elf + e_phnum))) [
      | false ↦ some mem
      | true ↦ elim (seg.p_type == load_seg) [
        | false ↦ next destpos mem
        | true ↦
            next (destpos + seg.p_memsize)
              (read_seg d destpos seg.p_filesize sector seg.p_offset mem)
      ]
    ]

abbrev at_entry : ℕ → Option Bytes → Option (ℕ × Bytes)
at_entry elf none = none
at_entry elf (some mem) = some (read32 mem (elf + e_entry), mem)

-- `load_process`: the entry point, or -1 as a word, with the memory. `e_phnum` is a short, so 65536
-- rounds are enough.
unfoldable pub load_process : Disk → ℕ → ℕ → Bytes → Option (ℕ × Bytes)
load_process d destpos sector mem =
    let elf = destpos + 4096 in
    let mem1 = read_seg d elf 4096 sector 0 mem in
    let loaded = load_loop 65536 d sector elf 0 (elf + read32 mem1 (elf + e_phoff)) destpos mem1 in
    if read32 mem1 elf == elf_magic then at_entry elf loaded else some (0xffff_ffff, mem1)

-- The loop of `loader_main`: each segment goes to the physical address of its own.
unfoldable pub loader_loop : ℕ → Disk → ℕ → ℕ → ℕ → ℕ → Bytes → Option Bytes
unfolding segment_at
loader_loop zero d sector elf i header mem = none
loader_loop (suc fuel) d sector elf i header mem =
    let seg = segment_at mem header in
    let next = loader_loop fuel d sector elf (i + 1) (header + program_header_size) in
    elim (ltb i (read16 mem (elf + e_phnum))) [
      | false ↦ some mem
      | true ↦ elim (seg.p_type == load_seg) [
        | false ↦ next mem
        | true ↦ next (read_seg d (vir_2_phy seg.p_vaddr) seg.p_filesize sector seg.p_offset mem)
      ]
    ]

-- `loader_main`: the kernel starts at the sector 6, and its header is read to 0x9000. The result is the
-- address that is called, `none` where the function returns for a wrong magic number.
unfoldable pub loader_main : Disk → Bytes → Option (Option ℕ × Bytes)
loader_main d mem =
    let elf : ℕ = 0x9000 in
    let mem1 = read_seg d elf 1024 6 0 mem in
    let loaded = loader_loop 65536 d 6 elf 0 (elf + read32 mem1 (elf + e_phoff)) mem1 in
    if read32 mem1 elf == elf_magic
    then elim loaded [
      | none ↦ none
      | some mem2 ↦ some (some (vir_2_phy (read32 mem2 (elf + e_entry))), mem2)
    ]
    else some (none, mem1)

read_sectors_at :
    (n : ℕ) (d : Disk) (t sector k : ℕ) (mem : Bytes)
    → sector + n < 2 ^ 32
    → read_sectors n d t sector mem k ≡ (
        if leb t k && ltb k (t + n * 512)
        then d (sector + (k - t) / 512) ((k - t) % 512)
        else mem k)
unfolding read_sectors k_readsector
read_sectors_at zero d t sector k mem lt = ground arith
read_sectors_at (suc n) d t sector k mem lt =
    let next : (sector + 1) % 2 ^ 32 ≡ sector + 1 = omega arith in
    let mem1 = memmov (d sector) 0 mem t 512 in
    rw next (
      read_sectors_at n d (t + 512) (sector + 1) k mem1 (omega arith)
      ∙ ground (arith, memmov_at 512 (d sector) 0 mem t k))

-- `read_seg` from a sector on, where no number leaves its word and the sector's start is not before the
-- address 0, loads as many whole sectors as `size` bytes take, aligned so that the byte at `offset`
-- comes to `target_location`. The byte behind it by `k` is the one of the disk where these sectors
-- reach; behind them the memory stays, though `k` may be below `size`.
pub read_seg_lem :
    (d : Disk) (target_location size start_sector offset k : ℕ) (mem : Bytes)
    → offset % 512 ≤ target_location
    → start_sector + offset / 512 + (size + 511) / 512 < 2 ^ 32
    → read_seg d target_location size start_sector offset mem (target_location + k) ≡ (
        if ltb (offset % 512 + k) ((size + 511) / 512 * 512)
        then d (start_sector + (offset + k) / 512) ((offset + k) % 512)
        else mem (target_location + k))
unfolding read_seg
read_seg_lem d t size start offset k mem room lt =
    let first : (start + offset / 512) % 2 ^ 32 ≡ start + offset / 512 = omega arith in
    rw first (
      read_sectors_at ((size + 511) / 512) d (t - offset % 512) (start + offset / 512) (t + k) mem
        (omega arith)
      ∙ ground arith)

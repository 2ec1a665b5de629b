-- ===== src/Process/Load.antt =====
-- `readSegment` and `loadProcess` of process.c, which put a program into memory, and `create_process`.
-- Where a virtual address of the user leads, the processor decides: `walk` gives, for a page directory and
-- a memory, the kernel's address of the byte.
pub mod Segments
use nbos.Base.{
  ℕ, zero, suc, ◌+◌, ◌-◌, ◌*◌, ◌/◌, ◌%◌, ◌^◌, true, false, Option, none, some, List, [], ◌∷◌, ◌==◌,
  ltb, set, get_elem?, if◌then◌else◌,
}
use nbos.Base.Partial.{◌>>=◌}
use nbos.Base.Bytes.{Bytes, read32, read16}
use nbos.Memory.Copy.{put, memmov}
use nbos.Memory.Elf.{
  Segment, segment_at, load_seg, elf_magic, program_header_size, e_phnum, e_phoff, e_entry,
}
use nbos.Memory.Pages.{Pages, page_size, align_up, vir_2_phy, alloc_page, page_map}
use nbos.File.Disk.{Disk, read_block, k_readsector}
use nbos.File.Layout.{Inode}
use nbos.File.Content.{ReadResult, read_file_at_offset}
use nbos.Process.{RunState, Fd, Pcb, Kernel, is_free, first_index, update}

-- The loop of `readSegment`: whole rests of blocks are copied, from the block's start on. `none` is a
-- place behind the inode's table.
unfoldable pub read_segment : ℕ → Disk → Inode → ℕ → ℕ → Bytes → ℕ → Option Bytes
unfolding k_readsector
read_segment zero d i offset end mem p = some mem
read_segment (suc fuel) d i offset end mem p =
    let left = 512 - offset % 512 in
    let next = λ (block : ℕ).
      read_segment fuel d i (offset + left) end (memmov (read_block d block) 0 mem p left)
        (p + left) in
    if ltb offset end
    then elim (get_elem? i.block_no (offset / 512)) [ none ↦ none | some block ↦ next block ]
    else some mem

-- `current_vir_page_ptr += PAGESIZE` moves a pointer to pages of 4096 bytes.
abbrev pub page_step : ℕ
page_step = page_size * 4096

-- The loop that maps a segment's pages, from `page` up to `end`.
unfoldable pub map_pages : ℕ → ℕ → ℕ → ℕ → Pages → Option Pages
map_pages zero pagedir page end s = none
map_pages (suc fuel) pagedir page end s =
    let (new_page, s') = alloc_page s in
    let rest =
      map_pages fuel pagedir ((page + page_step) % 2 ^ 32) end
        (page_map pagedir page (vir_2_phy new_page) 1 s') in
    if ltb page end then rest else some s

-- The bytes `buf` put at a user address, one by one.
unfoldable pub put_user : (ℕ → Bytes → ℕ → ℕ) → ℕ → Bytes → ℕ → ℕ → Bytes → Bytes
put_user walk pagedir buf zero vaddr mem = mem
put_user walk pagedir buf (suc n) vaddr mem =
    put_user walk pagedir (λ k. buf (k + 1)) n (vaddr + 1)
      (put mem (walk pagedir mem vaddr) (buf 0))

-- What a read into the user's memory leaves: `size` bytes of the buffer, whatever the result.
abbrev pub placed : (ℕ → Bytes → ℕ → ℕ) → ℕ → ℕ → ℕ → Pages → ReadResult → Option Pages
placed walk pagedir vaddr size s ReadResult.fault = none
placed walk pagedir vaddr size s (ReadResult.failed buf) =
    some (record s { mem = put_user walk pagedir buf size vaddr s.mem })
placed walk pagedir vaddr size s (ReadResult.got n buf) =
    some (record s { mem = put_user walk pagedir buf size vaddr s.mem })

-- The body of the loop over the program headers. 257 rounds take a pointer once around the addresses.
unfoldable pub load_segment :
    (ℕ → Bytes → ℕ → ℕ) → Disk → ℕ → Inode → Segment → Pages → Option Pages
load_segment walk d pagedir i seg s = do
  let end = align_up ((seg.p_vaddr + seg.p_memsize) % 2 ^ 32)
  mapped ← map_pages 257 pagedir (seg.p_vaddr / 4096 * 4096) end s
  let seen = λ (k : ℕ). mapped.mem (walk pagedir mapped.mem (seg.p_vaddr + k))
  placed walk pagedir seg.p_vaddr seg.p_filesize mapped
      (read_file_at_offset d i seg.p_offset seen seg.p_filesize)

-- The loop from the header `j` on, whose address is `header`; the headers and their number `e_phnum`, a
-- short, are read again in each round.
unfoldable pub load_segments :
    ℕ → (ℕ → Bytes → ℕ → ℕ) → Disk → ℕ → Inode → ℕ → ℕ → ℕ → Pages → Option Pages
unfolding segment_at
load_segments zero walk d pagedir i elf j header s = none
load_segments (suc fuel) walk d pagedir i elf j header s =
    let seg = segment_at s.mem header in
    let next = load_segments fuel walk d pagedir i elf (j + 1) (header + program_header_size) in
    elim (ltb j (read16 s.mem (elf + e_phnum))) [
      | false ↦ some s
      | true ↦ elim (seg.p_type == load_seg) [
        | false ↦ next s
        | true ↦ load_segment walk d pagedir i seg s >>= next
      ]
    ]

-- The first page of the file, in a page of the kernel.
abbrev pub header_read : ℕ → Pages → ReadResult → Option Pages
header_read page s ReadResult.fault = none
header_read page s (ReadResult.failed buf) =
    some (record s { mem = memmov buf 0 s.mem page page_size })
header_read page s (ReadResult.got n buf) =
    some (record s { mem = memmov buf 0 s.mem page page_size })

-- `loadProcess`: the entry point, `none` for NULL, with the memory; the outer `none` is a place behind the
-- inode's table, or a loop without end.
unfoldable pub load_process :
    (ℕ → Bytes → ℕ → ℕ) → Disk → ℕ → Inode → Pages → Option (Option ℕ × Pages)
load_process walk d pagedir i s =
    let (elf, s1) = alloc_page s in
    (do
      s2 ← header_read elf s1 (read_file_at_offset d i 0 (λ k. s1.mem (elf + k)) page_size)
      let loaded =
          load_segments 65536 walk d pagedir i elf 0 (elf + read32 s2.mem (elf + e_phoff)) s2
      let entry = loaded >>= (λ (s3 : Pages). some (some (read32 s3.mem (elf + e_entry)), s3))
      if read32 s2.mem elf == elf_magic then entry else some (none, s2))

-- `create_process`, where a block but the first is free; the descriptors 0 to 2 are opened.
abbrev pub standard_fds : List Fd → List Fd
standard_fds fds =
    set
      (set (set fds 0 (record { open_flag = 1; ofptr = some 0 })) 1
        (record { open_flag = 1; ofptr = some 1 }))
      2 (record { open_flag = 1; ofptr = some 2 })

abbrev pub behind_first : List Pcb → List Pcb
behind_first [] = []
behind_first (p ∷ ps) = ps

-- The index of the new process; `none` is a use of the pointer without a value.
unfoldable pub create_process : Kernel → Pages → Option (ℕ × Kernel × Pages)
create_process k s =
    let (page, s') = alloc_page s in
    elim (first_index (λ p. is_free p.pstate) 1 (behind_first k.pcblist)) [
      | none ↦ none
      | some i ↦ some (
        i,
        record k {
          nextpid = (k.nextpid + 1) % 2 ^ 32;
          pcblist =
              update i
                (λ p. record p {
                  pstate = RunState.born;
                  pid = k.nextpid;
                  pagedir = page;
                  fdlist = standard_fds p.fdlist;
                })
                k.pcblist;
        },
        s',
      )
    ]

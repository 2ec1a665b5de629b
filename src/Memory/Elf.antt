-- ===== src/Memory/Elf.antt =====
-- The headers of a program as elf.h describes them, read at an address.
use nbos.Base.{ℕ, ◌+◌}
use nbos.Base.Bytes.{Bytes, read32}

-- `struct program_header`, at an address.
pub record Segment : Type 0 where
  pub p_type : ℕ
  pub p_offset : ℕ
  pub p_vaddr : ℕ
  pub p_filesize : ℕ
  pub p_memsize : ℕ

unfoldable pub segment_at : Bytes → ℕ → Segment
segment_at mem p = record {
  p_type = read32 mem p;
  p_offset = read32 mem (p + 4);
  p_vaddr = read32 mem (p + 8);
  p_filesize = read32 mem (p + 16);
  p_memsize = read32 mem (p + 20);
}

abbrev pub load_seg : ℕ
load_seg = 1

abbrev pub elf_magic : ℕ
elf_magic = 0x464c457f

abbrev pub program_header_size : ℕ
program_header_size = 32

-- The offsets of the fields of `struct elf_header`.
abbrev pub e_entry : ℕ
e_entry = 24

abbrev pub e_phoff : ℕ
e_phoff = 28

abbrev pub e_phnum : ℕ
e_phnum = 44

-- ===== src/Start/Descriptors.antt =====
-- The table of descriptors of entry.c, and `init_tss` of task.c.
use nbos.Base.{ℕ, ◌+◌, ◌-◌, ◌*◌, ◌/◌, ◌%◌, ◌^◌, List, set}
use nbos.Memory.Pages.{vir_2_phy, page_size}

-- `struct global_descriptor`
pub record GlobalDescriptor : Type 0 where
  pub limit : ℕ
  pub base_low : ℕ
  pub base_mid : ℕ
  pub attr_low : ℕ
  pub attr_high : ℕ
  pub base_high : ℕ

-- `struct gdtr_structure`
pub record GdtrStructure : Type 0 where
  pub gdt_size : ℕ
  pub gdt_addr_low : ℕ
  pub gdt_addr_high : ℕ

-- `struct task_struct`, without its padding.
pub record TaskStruct : Type 0 where
  pub link : ℕ
  pub esp0 : ℕ
  pub ss0 : ℕ
  pub esp1 : ℕ
  pub ss1 : ℕ
  pub esp2 : ℕ
  pub ss2 : ℕ
  pub cr3 : ℕ
  pub eip : ℕ
  pub eflags : ℕ
  pub eax : ℕ
  pub ecx : ℕ
  pub edx : ℕ
  pub ebx : ℕ
  pub esp : ℕ
  pub ebp : ℕ
  pub esi : ℕ
  pub edi : ℕ
  pub es : ℕ
  pub cs : ℕ
  pub ss : ℕ
  pub ds : ℕ
  pub fs : ℕ
  pub gs : ℕ
  pub ldt : ℕ
  pub t : ℕ
  pub iomb : ℕ

-- `sizeof(tss)`: 26 words of 4 bytes.
abbrev pub tss_bytes : ℕ
tss_bytes = 104

abbrev pub krpl : ℕ
krpl = 0

abbrev pub urpl : ℕ
urpl = 3

abbrev pub kcode_selector : ℕ
kcode_selector = 1 * 2 ^ 3 + krpl

abbrev pub kdata_selector : ℕ
kdata_selector = 2 * 2 ^ 3 + krpl

abbrev pub tss_selector : ℕ
tss_selector = 5 * 2 ^ 3 + krpl

-- `GDT_G_4k`, `GDT_D_32`, `GDT_P` and `GDT_TYPE_TSS` are 1, 1, 1 and 9; the other parts are 0.
abbrev pub tss_attr_high : ℕ
tss_attr_high = 1 * 2 ^ 7 + 1 * 2 ^ 6

abbrev pub tss_attr_low : ℕ
tss_attr_low = 1 * 2 ^ 7 + 9

-- A descriptor as its initialiser in entry.c lists it; what is not listed is 0.
abbrev descriptor : ℕ → ℕ → ℕ → ℕ → ℕ → ℕ → GlobalDescriptor
descriptor limit base_low base_mid attr_low attr_high base_high = record {
  limit = limit;
  base_low = base_low;
  base_mid = base_mid;
  attr_low = attr_low;
  attr_high = attr_high;
  base_high = base_high;
}

-- Step 6 of `entry`: the first five descriptors.
unfoldable pub fill_gdt : List GlobalDescriptor → List GlobalDescriptor
fill_gdt gdt =
    let gdt0 = set gdt 0 (descriptor 0 0 0 0 0 0) in
    let gdt1 = set gdt0 1 (descriptor 0xffff 0 0 0x9a 0xcf 0) in
    let gdt2 = set gdt1 2 (descriptor 0xffff 0 0 0x92 0xcf 0) in
    let gdt3 = set gdt2 3 (descriptor 0xffff 0 0 0xfa 0xcf 0) in
    set gdt3 4 (descriptor 0xffff 0 0 0xf2 0xcf 0)

-- The operand of `lgdt`, for the address of the table.
unfoldable pub gdtr : ℕ → GdtrStructure
gdtr gdt = record {
  gdt_size = 6 * 8 - 1;
  gdt_addr_low = gdt % 65536;
  gdt_addr_high = gdt / 65536 % 65536;
}

-- The fields that `init_tss` fills, for the addresses of the page directory and of the stack.
unfoldable pub fill_tss : ℕ → ℕ → TaskStruct → TaskStruct
fill_tss pagedir stack tss = record tss {
  cr3 = vir_2_phy pagedir;
  ss0 = kdata_selector;
  cs = kcode_selector;
  ds = kdata_selector;
  es = kdata_selector;
  fs = kdata_selector;
  gs = kdata_selector;
  esp0 = (stack + page_size) % 2 ^ 32;
}

unfoldable pub tss_descriptor : ℕ → GlobalDescriptor
tss_descriptor tss_base = record {
  base_low = tss_base % 65536;
  limit = (tss_bytes - 1) % 65536;
  base_mid = tss_base / 2 ^ 16 % 256;
  attr_low = tss_attr_low % 256;
  attr_high = tss_attr_high % 256;
  base_high = tss_base / 2 ^ 24 % 256;
}

-- `init_tss`, for the address of the task state segment: the segment and the table, where its descriptor
-- now stands.
unfoldable pub init_tss :
    ℕ → ℕ → ℕ → TaskStruct → List GlobalDescriptor → TaskStruct × List GlobalDescriptor
unfolding fill_tss tss_descriptor
init_tss pagedir stack tss_base tss gdt =
    (fill_tss pagedir stack tss, set gdt (tss_selector % 256 / 8) (tss_descriptor tss_base))

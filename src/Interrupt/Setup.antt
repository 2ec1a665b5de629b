-- ===== src/Interrupt/Setup.antt =====
-- `init_pic`, `init_clock` and `init_interrupt` of interrupt.c: the controllers, and the interrupt table.
use nbos.Base.{ℕ, ◌-◌, ◌*◌, ◌/◌, ◌%◌, List, [], ◌∷◌, ◌++◌, replicate, set}
use nbos.Interrupt.{
  GateDesc, make_idt_desc, interrupt_gate_attribute, syscall_interrupt_gate_attribute,
}

-- A write of a byte to a port.
abbrev pub Out : Type 0
Out = ℕ × ℕ

abbrev pub mode_control : ℕ
mode_control = 0x43

abbrev pub counter0 : ℕ
counter0 = 0x40

abbrev pub count : ℕ
count = 11931

abbrev pub pic_m1 : ℕ
pic_m1 = 0x20

abbrev pub pic_m2 : ℕ
pic_m2 = 0x21

abbrev pub pic_s1 : ℕ
pic_s1 = 0xa0

abbrev pub pic_s2 : ℕ
pic_s2 = 0xa1

-- `init_clock`: the low byte of the counter first.
unfoldable pub init_clock : List Out
init_clock = (mode_control, 0x34) ∷ (counter0, count % 256) ∷ (counter0, count / 256 % 256) ∷ []

-- `init_pic`, the clock's writes in their place.
unfoldable pub init_pic : List Out
unfolding init_clock
init_pic =
    ((pic_m1, 0x11)
      ∷ (pic_m2, 0x20)
      ∷ (pic_m2, 0x04)
      ∷ (pic_m2, 0x01)
      ∷ (pic_s1, 0x11)
      ∷ (pic_s2, 0x28)
      ∷ (pic_s2, 0x02)
      ∷ (pic_s2, 0x01)
      ∷ [])
    ++ init_clock
    ++ ((pic_m2, 0xfc) ∷ (pic_s2, 0xff) ∷ [])

-- The entry points in assembly.
pub data Stub : Type 0 where
  other_exception : Stub
  divide_error : Stub
  debug : Stub
  nmi : Stub
  breakpoint : Stub
  overflow : Stub
  bound : Stub
  invalid_opcode : Stub
  double_fault : Stub
  invalid_tss : Stub
  segment_not_present : Stub
  stack_segment : Stub
  general_protection : Stub
  page_fault : Stub
  timer : Stub
  keyboard : Stub
  syscall : Stub

-- A name that an interrupt has when it is printed.
abbrev pub Text : Type 0
Text = List ℕ

-- "unknown"
abbrev unknown : Text
unknown = 117 ∷ 110 ∷ 107 ∷ 110 ∷ 111 ∷ 119 ∷ 110 ∷ []

-- "#DE Divide Error"
abbrev divide_error_name : Text
divide_error_name =
    35 ∷ 68 ∷ 69 ∷ 32 ∷ 68 ∷ 105 ∷ 118 ∷ 105 ∷ 100 ∷ 101 ∷ 32 ∷ 69 ∷ 114 ∷ 114 ∷ 111 ∷ 114 ∷ []

-- "#DB Debug"
abbrev debug_name : Text
debug_name = 35 ∷ 68 ∷ 66 ∷ 32 ∷ 68 ∷ 101 ∷ 98 ∷ 117 ∷ 103 ∷ []

-- "NMI Interrupt"
abbrev nmi_name : Text
nmi_name = 78 ∷ 77 ∷ 73 ∷ 32 ∷ 73 ∷ 110 ∷ 116 ∷ 101 ∷ 114 ∷ 114 ∷ 117 ∷ 112 ∷ 116 ∷ []

-- "#BP Breakpoint"
abbrev breakpoint_name : Text
breakpoint_name = 35 ∷ 66 ∷ 80 ∷ 32 ∷ 66 ∷ 114 ∷ 101 ∷ 97 ∷ 107 ∷ 112 ∷ 111 ∷ 105 ∷ 110 ∷ 116 ∷ []

-- "#OF Overflow"
abbrev overflow_name : Text
overflow_name = 35 ∷ 79 ∷ 70 ∷ 32 ∷ 79 ∷ 118 ∷ 101 ∷ 114 ∷ 102 ∷ 108 ∷ 111 ∷ 119 ∷ []

-- "#BR Bound Range Exceeded"
abbrev bound_name : Text
bound_name =
    35 ∷ 66 ∷ 82 ∷ 32 ∷ 66 ∷ 111 ∷ 117 ∷ 110 ∷ 100 ∷ 32 ∷ 82 ∷ 97 ∷ 110 ∷ 103 ∷ 101 ∷ 32 ∷ 69 ∷ 120
    ∷ 99 ∷ 101 ∷ 101 ∷ 100 ∷ 101 ∷ 100 ∷ []

-- "#UD Invalid Opcode(Undefined Opcode)"
abbrev invalid_opcode_name : Text
invalid_opcode_name =
    35 ∷ 85 ∷ 68 ∷ 32 ∷ 73 ∷ 110 ∷ 118 ∷ 97 ∷ 108 ∷ 105 ∷ 100 ∷ 32 ∷ 79 ∷ 112 ∷ 99 ∷ 111 ∷ 100 ∷ 101
    ∷ 40 ∷ 85 ∷ 110 ∷ 100 ∷ 101 ∷ 102 ∷ 105 ∷ 110 ∷ 101 ∷ 100 ∷ 32 ∷ 79 ∷ 112 ∷ 99 ∷ 111 ∷ 100 ∷ 101
    ∷ 41 ∷ []

-- "#DF Double Fault"
abbrev double_fault_name : Text
double_fault_name =
    35 ∷ 68 ∷ 70 ∷ 32 ∷ 68 ∷ 111 ∷ 117 ∷ 98 ∷ 108 ∷ 101 ∷ 32 ∷ 70 ∷ 97 ∷ 117 ∷ 108 ∷ 116 ∷ []

-- "#TS Invalid TSS"
abbrev invalid_tss_name : Text
invalid_tss_name =
    35 ∷ 84 ∷ 83 ∷ 32 ∷ 73 ∷ 110 ∷ 118 ∷ 97 ∷ 108 ∷ 105 ∷ 100 ∷ 32 ∷ 84 ∷ 83 ∷ 83 ∷ []

-- "#NP Segment Not Present"
abbrev segment_not_present_name : Text
segment_not_present_name =
    35 ∷ 78 ∷ 80 ∷ 32 ∷ 83 ∷ 101 ∷ 103 ∷ 109 ∷ 101 ∷ 110 ∷ 116 ∷ 32 ∷ 78 ∷ 111 ∷ 116 ∷ 32 ∷ 80 ∷ 114
    ∷ 101 ∷ 115 ∷ 101 ∷ 110 ∷ 116 ∷ []

-- "#SS Stack Segment Fault"
abbrev stack_segment_name : Text
stack_segment_name =
    35 ∷ 83 ∷ 83 ∷ 32 ∷ 83 ∷ 116 ∷ 97 ∷ 99 ∷ 107 ∷ 32 ∷ 83 ∷ 101 ∷ 103 ∷ 109 ∷ 101 ∷ 110 ∷ 116 ∷ 32
    ∷ 70 ∷ 97 ∷ 117 ∷ 108 ∷ 116 ∷ []

-- "#GP General Protection"
abbrev general_protection_name : Text
general_protection_name =
    35 ∷ 71 ∷ 80 ∷ 32 ∷ 71 ∷ 101 ∷ 110 ∷ 101 ∷ 114 ∷ 97 ∷ 108 ∷ 32 ∷ 80 ∷ 114 ∷ 111 ∷ 116 ∷ 101 ∷ 99
    ∷ 116 ∷ 105 ∷ 111 ∷ 110 ∷ []

-- "#PF Page Fault"
abbrev page_fault_name : Text
page_fault_name = 35 ∷ 80 ∷ 70 ∷ 32 ∷ 80 ∷ 97 ∷ 103 ∷ 101 ∷ 32 ∷ 70 ∷ 97 ∷ 117 ∷ 108 ∷ 116 ∷ []

-- "#Timer INTERRUPT"
abbrev timer_name : Text
timer_name = 35 ∷ 84 ∷ 105 ∷ 109 ∷ 101 ∷ 114 ∷ 32 ∷ 73 ∷ 78 ∷ 84 ∷ 69 ∷ 82 ∷ 82 ∷ 85 ∷ 80 ∷ 84 ∷ []

-- "# Keyboard Interrupt!"
abbrev keyboard_name : Text
keyboard_name =
    35 ∷ 32 ∷ 75 ∷ 101 ∷ 121 ∷ 98 ∷ 111 ∷ 97 ∷ 114 ∷ 100 ∷ 32 ∷ 73 ∷ 110 ∷ 116 ∷ 101 ∷ 114 ∷ 114
    ∷ 117 ∷ 112 ∷ 116 ∷ 33 ∷ []

-- "SYSTEM CALL"
abbrev syscall_name : Text
syscall_name = 83 ∷ 89 ∷ 83 ∷ 84 ∷ 69 ∷ 77 ∷ 32 ∷ 67 ∷ 65 ∷ 76 ∷ 76 ∷ []

-- The interrupt table, the names, and what `idtr` holds.
pub record Interrupts : Type 0 where
  pub idt : List GateDesc
  pub intr_name : List Text
  pub idt_size : ℕ
  pub idt_addr_low : ℕ
  pub idt_addr_high : ℕ

-- An entry of the table and its name.
abbrev named : ℕ → GateDesc → Text → Interrupts → Interrupts
named vector gate name s = record s {
  idt = set s.idt vector gate;
  intr_name = set s.intr_name vector name;
}

-- The loop over all 256 entries.
abbrev pub all_unknown : GateDesc → ℕ → Interrupts
all_unknown gate idt_addr = record {
  idt = replicate 256 gate;
  intr_name = replicate 256 unknown;
  idt_size = 256 * 8 - 1;
  idt_addr_low = idt_addr % 65536;
  idt_addr_high = idt_addr / 65536 % 65536;
}

-- `init_interrupt`, where `address` gives the place of each entry point, and `idt_addr` is that of the table.
unfoldable pub init_interrupt : ℕ → (Stub → ℕ) → ℕ → Interrupts
unfolding make_idt_desc
init_interrupt selector address idt_addr =
    let gate = λ (stub : Stub). make_idt_desc selector (address stub) interrupt_gate_attribute in
    let s0 =
      named 0 (gate divide_error) divide_error_name (all_unknown (gate other_exception) idt_addr) in
    let s1 = named 1 (gate debug) debug_name s0 in
    let s2 = named 2 (gate nmi) nmi_name s1 in
    let s3 = named 3 (gate breakpoint) breakpoint_name s2 in
    let s4 = named 4 (gate overflow) overflow_name s3 in
    let s5 = named 5 (gate bound) bound_name s4 in
    let s6 = named 6 (gate invalid_opcode) invalid_opcode_name s5 in
    let s7 = named 8 (gate double_fault) double_fault_name s6 in
    let s8 = named 10 (gate invalid_tss) invalid_tss_name s7 in
    let s9 = named 11 (gate segment_not_present) segment_not_present_name s8 in
    let s10 = named 12 (gate stack_segment) stack_segment_name s9 in
    let s11 = named 13 (gate general_protection) general_protection_name s10 in
    let s12 = named 14 (gate page_fault) page_fault_name s11 in
    let s13 = named 32 (gate timer) timer_name s12 in
    let s14 = named 33 (gate keyboard) keyboard_name s13 in
    named 128 (make_idt_desc selector (address syscall) syscall_interrupt_gate_attribute)
      syscall_name s14

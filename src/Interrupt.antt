-- ===== src/Interrupt.antt =====
-- interrupt.c: the gates of the interrupt table, and the choice of a handler.
pub mod Gates
pub mod Setup
pub mod Report
use nbos.Base.{
  ℕ, ◌+◌, ◌*◌, ◌/◌, ◌%◌, ◌^◌, ◌<◌, ◌≡◌, ◌≢◌, refl, arith, Bool, true, false, Option, none, some,
  List, [], ◌∷◌, ◌==◌, if◌then◌else◌, get_elem?, set, length,
}

-- `struct gate_desc`
pub record GateDesc : Type 0 where
  pub offset_low : ℕ
  pub selector : ℕ
  pub attribute : ℕ
  pub offset_high : ℕ

abbrev pub interrupt_gate_attribute : ℕ
interrupt_gate_attribute = 0x8e00

abbrev pub syscall_interrupt_gate_attribute : ℕ
syscall_interrupt_gate_attribute = 0xee00

-- `make_idt_desc`, with the kernel's code selector as an argument.
unfoldable pub make_idt_desc : ℕ → ℕ → ℕ → GateDesc
make_idt_desc selector function attribute = record {
  offset_low = function % 65536;
  selector = selector;
  attribute = attribute % 65536;
  offset_high = function / 65536 % 65536;
}

-- `renew_handler`. The first assignment has no `else` behind it, so the second one follows it too.
unfoldable pub renew_handler : ℕ → ℕ → ℕ → List GateDesc → List GateDesc
unfolding make_idt_desc
renew_handler selector vector function idt =
    let first =
      if vector == 0x80
      then set idt vector (make_idt_desc selector function syscall_interrupt_gate_attribute)
      else idt in
    set first vector (make_idt_desc selector function interrupt_gate_attribute)

-- The functions of `sys_call_table`.
pub data SysCall : Type 0 where
  sys_exit sys_fork sys_read sys_write sys_open sys_close sys_wait sys_creat sys_execve sys_clear :
      SysCall

-- `none` is a null pointer in the table.
unfoldable pub sys_call_table : ℕ → Option SysCall
sys_call_table n =
    if n == 1
    then some sys_exit
    else if n == 2
    then some sys_fork
    else if n == 3
    then some sys_read
    else if n == 4
    then some sys_write
    else if n == 5
    then some sys_open
    else if n == 6
    then some sys_close
    else if n == 7
    then some sys_wait
    else if n == 8
    then some sys_creat
    else if n == 11
    then some sys_execve
    else if n == 72
    then some sys_clear
    else none

-- What `interrupt_assign` calls: an entry of the table, or a handler.
pub data Handler : Type 0 where
  sys_call : Option SysCall → Handler
  timer keyboard page_fault : Handler
  general : ℕ → Handler

unfoldable pub interrupt_assign : ℕ → ℕ → Handler
unfolding sys_call_table
interrupt_assign intr_no eax =
    if intr_no == 0x80
    then sys_call (sys_call_table eax)
    else if intr_no == 0x20
    then timer
    else if intr_no == 0x21
    then keyboard
    else if intr_no == 14
    then page_fault
    else general intr_no

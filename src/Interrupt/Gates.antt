-- ===== src/Interrupt/Gates.antt =====
-- What `renew_handler` leaves in the interrupt table.
use nbos.Base.{
  ℕ, ◌+◌, ◌*◌, ◌^◌, ◌<◌, ◌≡◌, ◌≢◌, refl, sym, ◌∙◌, arith, some, List, ◌==◌, get_elem?, set, length,
  Bool-cases, inl, inr, get_elem?-set_self, get_elem?-set_ne, length-set,
}
use nbos.Interrupt.{
  GateDesc, make_idt_desc, renew_handler, interrupt_gate_attribute,
  syscall_interrupt_gate_attribute,
}

-- For a vector inside the table, `renew_handler` points its gate to the function, at a 32-bit
-- address, and leaves every other gate `j`. The gate is one that only the kernel may call, also
-- for the system call vector 0x80.
pub renew_handler_lem :
    (selector vector function j : ℕ) (idt : List GateDesc)
    → vector < length idt
    → function < 2 ^ 32
    → j ≢ vector
    → (gate : GateDesc) × ((get_elem? (renew_handler selector vector function idt) vector
          ≡ some gate)
        × (gate.attribute ≡ interrupt_gate_attribute)
        × (gate.selector ≡ selector)
        × (gate.offset_high * 65536 + gate.offset_low ≡ function)
        × (get_elem? (renew_handler selector vector function idt) j ≡ get_elem? idt j))
unfolding renew_handler make_idt_desc
renew_handler_lem selector vector function j idt lt small ne =
    let gate = make_idt_desc selector function interrupt_gate_attribute in
    let early = make_idt_desc selector function syscall_interrupt_gate_attribute in
    elim (Bool-cases (vector == 0x80)) [
      | inl e ↦ (
        gate,
        (
          rw e (
              get_elem?-set_self (set idt vector early) vector gate
                (omega (arith, length-set idt vector early))),
          refl,
          refl,
          omega arith,
          rw e (
              get_elem?-set_ne (set idt vector early) gate (λ e. ne (sym e))
              ∙ get_elem?-set_ne idt early (λ e. ne (sym e))),
        ),
      )
      | inr e ↦ (
        gate,
        (
          rw e (get_elem?-set_self idt vector gate lt),
          refl,
          refl,
          omega arith,
          rw e (get_elem?-set_ne idt gate (λ e. ne (sym e))),
        ),
      )
    ]

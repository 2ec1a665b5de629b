-- ===== src/Start/Selectors.antt =====
-- What the processor reads in the descriptors that the kernel sets up.
use nbos.Base.{
  ℕ, ◌+◌, ◌-◌, ◌*◌, ◌/◌, ◌%◌, ◌^◌, ◌<◌, ◌≡◌, refl, arith, some, List, [], ◌∷◌, length, get_elem?,
  leb, if◌then◌else◌,
}
use nbos.Process.User.{ucode_selector, udata_selector}
use nbos.Start.Descriptors.{
  GlobalDescriptor, TaskStruct, tss_descriptor, fill_gdt, init_tss, kcode_selector, kdata_selector,
  tss_selector,
}

-- The base, the last byte's offset and the privilege level of a descriptor, as the processor puts them
-- together; the bit 7 of the high attributes counts the limit in pages.
abbrev pub base_of : GlobalDescriptor → ℕ
base_of g = g.base_low + g.base_mid * 2 ^ 16 + g.base_high * 2 ^ 24

abbrev pub limit_of : GlobalDescriptor → ℕ
limit_of g =
    let limit = g.limit + g.attr_high % 16 * 2 ^ 16 in
    if leb 128 g.attr_high then limit * 4096 + 4095 else limit

abbrev pub privilege_of : GlobalDescriptor → ℕ
privilege_of g = g.attr_low / 32 % 4

-- A segment over all addresses, with the privilege level that the selector asks for.
pub record Flat (gdt : List GlobalDescriptor) (selector : ℕ) : Type 0 where
  pub found : GlobalDescriptor
  pub at : get_elem? gdt (selector / 8) ≡ some found
  pub base : base_of found ≡ 0
  pub limit : limit_of found ≡ 2 ^ 32 - 1
  pub privilege : privilege_of found ≡ selector % 4

recomposed :
    (b : ℕ) → b < 2 ^ 32 → b % 65536 + b / 2 ^ 16 % 256 * 2 ^ 16 + b / 2 ^ 24 % 256 * 2 ^ 24 ≡ b
recomposed b small = omega arith

-- After `entry` and `init_tss`, with six descriptors in the table, the four selectors of code and data
-- name segments over all addresses with their own privilege level, and the selector of the task state
-- segment names a descriptor whose base is the segment's address. Its limit is counted in pages, as
-- if the segment had 104 of them.
pub init_tss-segments :
    (pagedir stack tss_base : ℕ) (tss : TaskStruct) (gdt : List GlobalDescriptor)
    → length gdt ≡ 6
    → tss_base < 2 ^ 32
    → let gdt' = (init_tss pagedir stack tss_base tss (fill_gdt gdt)).1 in
      (Flat gdt' kcode_selector
        × Flat gdt' kdata_selector
        × Flat gdt' ucode_selector
        × Flat gdt' udata_selector)
      × ((g : GlobalDescriptor) × (get_elem? gdt' (tss_selector / 8) ≡ some g)
          × (base_of g ≡ tss_base)
          × (privilege_of g ≡ 0)
          × (limit_of g ≡ 104 * 4096 - 1))
unfolding init_tss fill_gdt tss_descriptor
init_tss-segments pagedir stack tss_base tss (a ∷ b ∷ c ∷ d ∷ e ∷ f ∷ gdt) six small = (
  (
    record { found = _; at = refl; base = refl; limit = refl; privilege = refl },
    record { found = _; at = refl; base = refl; limit = refl; privilege = refl },
    record { found = _; at = refl; base = refl; limit = refl; privilege = refl },
    record { found = _; at = refl; base = refl; limit = refl; privilege = refl },
  ),
  (_, refl, recomposed tss_base small, refl, refl),
)
init_tss-segments pagedir stack tss_base tss [] six small = absurd (omega (arith, six))
init_tss-segments pagedir stack tss_base tss (a ∷ []) six small = absurd (omega (arith, six))
init_tss-segments pagedir stack tss_base tss (a ∷ b ∷ []) six small = absurd (omega (arith, six))
init_tss-segments pagedir stack tss_base tss (a ∷ b ∷ c ∷ []) six small =
    absurd (omega (arith, six))
init_tss-segments pagedir stack tss_base tss (a ∷ b ∷ c ∷ d ∷ []) six small =
    absurd (omega (arith, six))
init_tss-segments pagedir stack tss_base tss (a ∷ b ∷ c ∷ d ∷ e ∷ []) six small =
    absurd (omega (arith, six))
